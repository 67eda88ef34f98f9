-- ===== src/Config.antt =====
-- `Settings` of src/openvoice/config.py: the fields with their defaults, and the validation at startup. How
-- pydantic reads the environment is not modelled: a value of `Settings` is what it has read.
pub mod Factories
pub mod Startup
use open_voice.Base.{
  ℕ, Bool, true, false, not, ◌&&◌, ◌||◌, Option, none, some, List, [], ◌∷◌, ltb, length, is_empty,
  if◌then◌else◌,
}
use open_voice.Base.Text.{Text, codes}
use open_voice.Base.Result.{Error, Result, ok, err, then_ok}

pub data Environment : Type 0 where
  local test staging production : Environment

pub data LlmProvider : Type 0 where
  anthropic openai openai_compatible : LlmProvider

pub data TtsProvider : Type 0 where
  piper coqui elevenlabs : TtsProvider

pub data SttProvider : Type 0 where
  faster_whisper deepgram : SttProvider

pub data CalendarProvider : Type 0 where
  google : CalendarProvider

pub data SmsProvider : Type 0 where
  twilio : SmsProvider

pub data EmailProvider : Type 0 where
  resend : EmailProvider

-- Durations are microseconds, and counts natural numbers.
pub record Settings : Type 0 where
  pub environment : Environment
  pub debug : Bool
  pub api_host : Text
  pub api_port : ℕ
  pub secret_key : Text
  pub database_url : Text
  pub database_pool_size : ℕ
  pub database_echo : Bool
  pub redis_url : Text
  pub llm_provider : LlmProvider
  pub anthropic_api_key : Option Text
  pub anthropic_model : Text
  pub openai_api_key : Option Text
  pub openai_model : Text
  pub openai_compatible_base_url : Option Text
  pub openai_compatible_model : Option Text
  pub openai_compatible_api_key : Option Text
  pub llm_request_timeout : ℕ
  pub llm_max_retries : ℕ
  pub stt_provider : SttProvider
  pub tts_provider : TtsProvider
  pub deepgram_api_key : Option Text
  pub elevenlabs_api_key : Option Text
  pub elevenlabs_voice_id : Text
  pub elevenlabs_model : Text
  pub faster_whisper_model_size : Text
  pub faster_whisper_device : Text
  pub faster_whisper_compute_type : Text
  pub piper_voice_model_path : Text
  pub agent_company_name : Text
  pub agent_system_prompt : Option Text
  pub agent_max_history_turns : ℕ
  pub agent_human_transfer_number : Option Text
  pub agent_max_conversation_turns : Option ℕ
  pub agent_max_call_duration : Option ℕ
  pub vad_min_silence_duration : ℕ
  pub calendar_provider : CalendarProvider
  pub google_calendar_id : Text
  pub google_service_account_json_path : Option Text
  pub booking_business_hours_start : ℕ
  pub booking_business_hours_end : ℕ
  pub booking_default_duration_minutes : ℕ
  pub booking_search_days_ahead : ℕ
  pub booking_timezone : Text
  pub sms_provider : SmsProvider
  pub twilio_account_sid : Option Text
  pub twilio_auth_token : Option Text
  pub twilio_from_number : Option Text
  pub email_provider : EmailProvider
  pub resend_api_key : Option Text
  pub resend_from_email : Option Text
  pub notification_request_timeout : ℕ
  pub notification_max_retries : ℕ
  pub sentry_dsn : Option Text
  pub log_level : Text

-- What an environment with the two required values and nothing else is read as.
abbrev pub default_settings : Text → Text → Settings
default_settings secret_key database_url = record {
  environment = Environment.local;
  debug = false;
  api_host = codes "0.0.0.0";
  api_port = 8000;
  secret_key = secret_key;
  database_url = database_url;
  database_pool_size = 10;
  database_echo = false;
  redis_url = codes "redis://localhost:6379/0";
  llm_provider = LlmProvider.anthropic;
  anthropic_api_key = none;
  anthropic_model = codes "claude-sonnet-5";
  openai_api_key = none;
  openai_model = codes "gpt-4o";
  openai_compatible_base_url = none;
  openai_compatible_model = none;
  openai_compatible_api_key = none;
  llm_request_timeout = 15000000;
  llm_max_retries = 3;
  stt_provider = SttProvider.faster_whisper;
  tts_provider = TtsProvider.piper;
  deepgram_api_key = none;
  elevenlabs_api_key = none;
  elevenlabs_voice_id = codes "21m00Tcm4TlvDq8ikWAM";
  elevenlabs_model = codes "eleven_turbo_v2_5";
  faster_whisper_model_size = codes "small";
  faster_whisper_device = codes "cpu";
  faster_whisper_compute_type = codes "int8";
  piper_voice_model_path = codes "models/piper/en_US-amy-medium.onnx";
  agent_company_name = codes "our company";
  agent_system_prompt = none;
  agent_max_history_turns = 20;
  agent_human_transfer_number = none;
  agent_max_conversation_turns = some 40;
  agent_max_call_duration = some 900000000;
  vad_min_silence_duration = 400000;
  calendar_provider = CalendarProvider.google;
  google_calendar_id = codes "primary";
  google_service_account_json_path = none;
  booking_business_hours_start = 9;
  booking_business_hours_end = 17;
  booking_default_duration_minutes = 30;
  booking_search_days_ahead = 7;
  booking_timezone = codes "UTC";
  sms_provider = SmsProvider.twilio;
  twilio_account_sid = none;
  twilio_auth_token = none;
  twilio_from_number = none;
  email_provider = EmailProvider.resend;
  resend_api_key = none;
  resend_from_email = none;
  notification_request_timeout = 10000000;
  notification_max_retries = 3;
  sentry_dsn = none;
  log_level = codes "INFO";
}

-- Python's truth of an optional text
abbrev pub is_set : Option Text → Bool
is_set none = false
is_set (some t) = not (is_empty t)

-- `_validate_llm_provider_credentials`: the credentials of the selected provider are there
abbrev pub has_llm_credentials : LlmProvider → Settings → Bool
has_llm_credentials LlmProvider.anthropic s = is_set s.anthropic_api_key
has_llm_credentials LlmProvider.openai s = is_set s.openai_api_key
has_llm_credentials LlmProvider.openai_compatible s =
    is_set s.openai_compatible_base_url && is_set s.openai_compatible_model

abbrev pub validate_llm_provider_credentials : Settings → Result Settings
validate_llm_provider_credentials s =
    if has_llm_credentials s.llm_provider s then ok s else err Error.value_error

-- `_validate_tts_provider_credentials`
abbrev pub has_tts_credentials : TtsProvider → Settings → Bool
has_tts_credentials TtsProvider.elevenlabs s = is_set s.elevenlabs_api_key
has_tts_credentials provider s = true

abbrev pub validate_tts_provider_credentials : Settings → Result Settings
validate_tts_provider_credentials s =
    if has_tts_credentials s.tts_provider s then ok s else err Error.value_error

-- `Settings()`: the length of the secret key, and then the validators in order. A
-- `ValidationError` is a `ValueError`.
unfoldable pub validate : Settings → Result Settings
validate s =
    if ltb (length s.secret_key) 16
    then err Error.value_error
    else then_ok (validate_llm_provider_credentials s) validate_tts_provider_credentials
