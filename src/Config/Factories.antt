-- ===== src/Config/Factories.antt =====
-- The factories that build a provider from the settings: src/openvoice/llm/factory.py, stt/factory.py,
-- tts/factory.py, calendar/factory.py and notifications/factory.py. A provider is what its constructor is
-- given.
use open_voice.Base.{ℕ, Bool, not, ◌&&◌, Option, none, some, if◌then◌else◌}
use open_voice.Base.Text.{Text, codes}
use open_voice.Base.Result.{Error, Result, ok, err, then_ok}
use open_voice.Config.{Settings, LlmProvider, TtsProvider, SttProvider, is_set}

-- The arguments of the constructors.
pub data LlmConfig : Type 0 where
  -- api_key, model, timeout and max_retries
  anthropic_llm : Text → Text → ℕ → ℕ → LlmConfig
  -- and base_url
  openai_llm : Option Text → Text → ℕ → ℕ → Option Text → LlmConfig

abbrev pub anthropic_provider : Settings → Option Text → Result LlmConfig
anthropic_provider s none = err Error.runtime_error
anthropic_provider s (some api_key) =
    ok (anthropic_llm api_key s.anthropic_model s.llm_request_timeout s.llm_max_retries)

abbrev pub openai_provider : Settings → Option Text → Result LlmConfig
openai_provider s none = err Error.runtime_error
openai_provider s (some api_key) =
    ok (openai_llm (some api_key) s.openai_model s.llm_request_timeout s.llm_max_retries none)

abbrev pub openai_compatible_provider : Settings → Option Text → Option Text → Result LlmConfig
openai_compatible_provider s none model = err Error.runtime_error
openai_compatible_provider s (some base_url) none = err Error.runtime_error
openai_compatible_provider s (some base_url) (some model) = ok (
    openai_llm s.openai_compatible_api_key model s.llm_request_timeout s.llm_max_retries
      (some base_url))

abbrev pub llm_provider_for : LlmProvider → Settings → Result LlmConfig
llm_provider_for LlmProvider.anthropic s = anthropic_provider s s.anthropic_api_key
llm_provider_for LlmProvider.openai s = openai_provider s s.openai_api_key
llm_provider_for LlmProvider.openai_compatible s =
    openai_compatible_provider s s.openai_compatible_base_url s.openai_compatible_model

-- `get_llm_provider`
unfoldable pub get_llm_provider : Settings → Result LlmConfig
get_llm_provider s = llm_provider_for s.llm_provider s

-- The machine: whether an optional package can be imported, and what the constructor or the loader that is then called
-- raises, if it does: of a Whisper model, of a Piper voice and of a Google client by the path of its account.
pub record Packages : Type 0 where
  pub faster_whisper : Bool
  pub piper : Bool
  pub google : Bool
  pub whisper_model : Text → Text → Text → Result (Unit {0})
  pub piper_load : Text → Result (Unit {0})
  pub google_client : Text → Result (Unit {0})

pub data SttConfig : Type 0 where
  -- model size, device and compute type
  whisper : Text → Text → Text → SttConfig

-- `FasterWhisperSTTProvider.from_settings`
abbrev pub whisper_from_settings : Packages → Settings → Result SttConfig
whisper_from_settings packages s =
    if packages.faster_whisper
    then (then_ok
        (packages.whisper_model s.faster_whisper_model_size s.faster_whisper_device
          s.faster_whisper_compute_type)
        λ _. ok (
          whisper s.faster_whisper_model_size s.faster_whisper_device
            s.faster_whisper_compute_type))
    else err
        (Error.stt_error (codes "faster-whisper is not installed; run `uv sync --extra voice`"))

-- `get_stt_provider`
unfoldable pub get_stt_provider : Packages → Settings → Result SttConfig
get_stt_provider packages s = elim s.stt_provider [
  | SttProvider.faster_whisper ↦ whisper_from_settings packages s
  | SttProvider.deepgram ↦ err Error.not_implemented_error
]

pub data TtsConfig : Type 0 where
  piper_voice : Text → TtsConfig
  -- api_key, voice_id and model_id
  elevenlabs_voice : Text → Text → Text → TtsConfig

-- `PiperTTSProvider.from_settings`
abbrev pub piper_from_settings : Packages → Settings → Result TtsConfig
piper_from_settings packages s =
    if packages.piper
    then (then_ok (packages.piper_load s.piper_voice_model_path)
        λ _. ok (piper_voice s.piper_voice_model_path))
    else err (Error.tts_error (codes "piper-tts is not installed; run `uv sync --extra voice`"))

abbrev pub elevenlabs_provider : Settings → Option Text → Result TtsConfig
elevenlabs_provider s none = err Error.runtime_error
elevenlabs_provider s (some api_key) =
    ok (elevenlabs_voice api_key s.elevenlabs_voice_id s.elevenlabs_model)

abbrev pub tts_provider_for : Packages → TtsProvider → Settings → Result TtsConfig
tts_provider_for packages TtsProvider.piper s = piper_from_settings packages s
tts_provider_for packages TtsProvider.elevenlabs s = elevenlabs_provider s s.elevenlabs_api_key
tts_provider_for packages TtsProvider.coqui s = err Error.not_implemented_error

-- `get_tts_provider`
unfoldable pub get_tts_provider : Packages → Settings → Result TtsConfig
get_tts_provider packages s = tts_provider_for packages s.tts_provider s

-- calendar_id and the path of the service account
pub record GoogleConfig : Type 0 where
  pub calendar_id : Text
  pub service_account_json_path : Text

-- `GoogleCalendarProvider.from_settings`
abbrev pub google_from_settings : Packages → Settings → Option Text → Result GoogleConfig
google_from_settings packages s none = err (
    Error.calendar_error
      (codes "GOOGLE_SERVICE_ACCOUNT_JSON_PATH is required to build the Google Calendar provider"))
google_from_settings packages s (some path) =
    if packages.google
    then (then_ok (packages.google_client path)
        λ _. ok (record { calendar_id = s.google_calendar_id; service_account_json_path = path }))
    else err (
        Error.calendar_error
          (codes "google-api-python-client is not installed; run `uv sync --extra calendar`"))

-- `get_calendar_provider`: Google is the only one
unfoldable pub get_calendar_provider : Packages → Settings → Result GoogleConfig
get_calendar_provider packages s =
    google_from_settings packages s s.google_service_account_json_path

pub record TwilioConfig : Type 0 where
  pub account_sid : Text
  pub auth_token : Text
  pub from_number : Text
  pub timeout : ℕ
  pub max_retries : ℕ

abbrev pub twilio_of : Settings → Option Text → Option Text → Option Text → Result TwilioConfig
twilio_of s (some account_sid) (some auth_token) (some from_number) = ok (record {
  account_sid = account_sid;
  auth_token = auth_token;
  from_number = from_number;
  timeout = s.notification_request_timeout;
  max_retries = s.notification_max_retries;
})
twilio_of s _ _ _ = err Error.runtime_error

-- `get_sms_provider`: Twilio is the only one
unfoldable pub get_sms_provider : Settings → Result TwilioConfig
get_sms_provider s =
    if not (is_set s.twilio_account_sid && is_set s.twilio_auth_token)
    then err Error.runtime_error
    else if not (is_set s.twilio_from_number)
    then err Error.runtime_error
    else twilio_of s s.twilio_account_sid s.twilio_auth_token s.twilio_from_number

pub record ResendConfig : Type 0 where
  pub api_key : Text
  pub from_email : Text
  pub timeout : ℕ
  pub max_retries : ℕ

abbrev pub resend_of : Settings → Option Text → Option Text → Result ResendConfig
resend_of s (some api_key) (some from_email) = ok (record {
  api_key = api_key;
  from_email = from_email;
  timeout = s.notification_request_timeout;
  max_retries = s.notification_max_retries;
})
resend_of s _ _ = err Error.runtime_error

-- `get_email_provider`: Resend is the only one
unfoldable pub get_email_provider : Settings → Result ResendConfig
get_email_provider s =
    if not (is_set s.resend_api_key && is_set s.resend_from_email)
    then err Error.runtime_error
    else resend_of s s.resend_api_key s.resend_from_email
