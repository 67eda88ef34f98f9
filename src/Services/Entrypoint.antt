-- ===== src/Services/Entrypoint.antt =====
-- The part of `entrypoint` of src/openvoice/telephony/worker.py that sets a call's conversation and its agent up.
use open_voice.Base.{ℕ, Option, none, some, ◌++◌, is_some}
use open_voice.Base.Text.{Text, codes}
use open_voice.Base.Result.{Result, ok, then_ok}
use open_voice.Config.{Settings}
use open_voice.Config.Factories.{
  Packages, LlmConfig, SttConfig, TtsConfig, get_llm_provider, get_stt_provider, get_tts_provider,
}
use open_voice.Conversation.{Conversation, Arguments, new_conversation}
use open_voice.Tools.{Libraries}
use open_voice.Services.{Clients, BookingTools, tools_for, map_option}
use open_voice.Services.Prompts.{Zones, build_system_prompt, build_temporal_context}

-- `BOOKING_SYSTEM_PROMPT_ADDENDUM` of src/openvoice/agent/tools/booking.py
abbrev pub booking_addendum : Text
booking_addendum =
    codes
      "\n\nYou can take real booking actions using the tools available to you:\n- check_availability and list_my_appointments are informational -- use them freely.\n- book_appointment, cancel_appointment, and reschedule_appointment actually change the calendar. Before calling one of these, say the exact date, time, and action out loud and wait for the caller to clearly confirm (e.g. \"yes\", \"that's right\"). Only then call the tool with caller_confirmed set to true. Never guess a confirmation the caller didn't give, and never call a mutating tool speculatively.\n"

-- `system_prompt += BOOKING_SYSTEM_PROMPT_ADDENDUM`, with tools
abbrev pub with_addendum : Option BookingTools → Text → Text
with_addendum none prompt = prompt
with_addendum (some tools) prompt = prompt ++ booking_addendum

-- the keyword arguments of the conversation
abbrev pub conversation_arguments : Settings → Text → Option BookingTools → Arguments
conversation_arguments settings prompt tools = record {
  system_prompt = with_addendum tools prompt;
  max_history_turns = settings.agent_max_history_turns;
  tools = map_option (λ (t : BookingTools). t.definitions) tools;
  has_executor = is_some tools;
  max_tool_iterations = 4;
  max_conversation_turns = settings.agent_max_conversation_turns;
  max_call_duration = settings.agent_max_call_duration;
  call_started_at = none;
}

-- What a call starts with.
pub record Started : Type 0 where
  pub llm : LlmConfig
  pub tools : Option BookingTools
  pub conversation : Conversation

-- the constructor's call: its arguments are evaluated first
abbrev pub conversation_with : Settings → ℕ → Text → Option BookingTools → Result Started
conversation_with settings now prompt tools = then_ok (get_llm_provider settings) λ llm.
    then_ok (new_conversation (conversation_arguments settings prompt tools) now)
      λ conversation. ok (record { llm = llm; tools = tools; conversation = conversation })

-- `client_id` is the key of the caller's row, if the caller has a number.
unfoldable pub start_conversation :
    {Z : Type 0}
    → Packages
    → Libraries
    → Clients
    → Zones Z
    → Settings
    → Option ℕ
    → ℕ
    → ℕ
    → Result Started
start_conversation packages libraries clients zones settings client_id call_id now =
    then_ok (build_temporal_context zones settings.booking_timezone now) λ context.
      then_ok (tools_for packages libraries clients settings client_id call_id)
        (conversation_with settings now (build_system_prompt settings ++ context))

-- The agent of a call, with its speech providers.
pub record CallAgent : Type 0 where
  pub started : Started
  pub stt : SttConfig
  pub tts : TtsConfig

-- the arguments of `OpenVoiceAgent`
abbrev pub agent_with : Packages → Settings → Started → Result CallAgent
agent_with packages settings started = then_ok (get_stt_provider packages settings) λ stt.
    then_ok (get_tts_provider packages settings)
      λ tts. ok (record { started = started; stt = stt; tts = tts })

unfoldable pub start_agent :
    {Z : Type 0}
    → Packages
    → Libraries
    → Clients
    → Zones Z
    → Settings
    → Option ℕ
    → ℕ
    → ℕ
    → Result CallAgent
start_agent packages libraries clients zones settings client_id call_id now =
    then_ok (start_conversation packages libraries clients zones settings client_id call_id now)
      (agent_with packages settings)
