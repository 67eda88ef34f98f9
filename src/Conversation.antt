-- ===== src/Conversation.antt =====
-- src/openvoice/agent/conversation.py: one call's conversation, its state and its history. The
-- handling of an utterance is in the modules `Loop` and `Stream` below. The provider, the tool executor and
-- the clock act on a world `W`, which only they read; what they are asked is kept in a trace.
pub mod History
pub mod Loop
pub mod Stream
mod Tests
use open_voice.Base.{
  ℕ, zero, suc, ◌+◌, ◌-◌, ◌≡◌, Bool, true, false, ◌||◌, Option, none, some, List, [], ◌∷◌, ◌++◌,
  if◌then◌else◌, leb, ltb, ◌==◌, length, take, drop, is_empty, is_some,
}
use mathlib.Core.Bool.{xor}
use mathlib.Core.Option.{get_or}
use open_voice.Base.Text.{Text, codes}
use open_voice.Base.Result.{Error, Result, ok, err}
use open_voice.Llm.{
  Role, ToolDefinition, ToolCall, LlmMessage, LlmResponse, text_message, is_role, calls_of,
}
use open_voice.Reply.{
  Intent, AgentReply, build_structured_system_prompt, fresh, feed_all, finalize,
  parse_structured_reply,
}

abbrev pub fallback_message : Text
fallback_message =
    codes
      "I'm sorry, I'm having trouble processing that right now. Let me transfer you to a member of our team."

abbrev pub call_limit_message : Text
call_limit_message =
    codes
      "We've been on the line for a while -- let me transfer you to a member of our team so we can keep helping you."

-- `intent in _TRANSFER_INTENTS`
abbrev pub is_transfer_intent : Intent → Bool
is_transfer_intent Intent.human_transfer = true
is_transfer_intent Intent.urgent = true
is_transfer_intent _ = false

-- The attributes of a `ConversationManager`. Durations and instants are microseconds, and the
-- limits that are counts are natural numbers.
pub record Conversation : Type 0 where
  pub system_prompt : Text
  pub max_history_turns : ℕ
  pub tools : Option (List ToolDefinition)
  pub max_tool_iterations : ℕ
  pub max_conversation_turns : Option ℕ
  pub max_call_duration : Option ℕ
  pub call_started_at : ℕ
  pub turn_count : ℕ
  pub history : List LlmMessage
  pub last_reply : Option AgentReply

-- What the conversation is built with and does not implement.
pub record Providers (W : Type 0) : Type 0 where
  -- `BaseLLMProvider.generate`: history, system prompt and tools
  pub generate : List LlmMessage → Text → Option (List ToolDefinition) → W → Result LlmResponse × W
  -- `generate_stream`: the deltas, and the exception that ended the stream, if one did
  pub generate_stream : List LlmMessage → Text → W → (List Text × Option Error) × W
  pub tool_executor : Option (ToolCall → W → Result (Text × Bool) × W)
  -- `datetime.now(UTC)`
  pub now : W → ℕ

-- The counters of metrics.py that a conversation increments.
pub data Metric : Type 0 where
  llm_errors_total : Metric
  tool_calls_total : Text → Bool → Metric

pub record State (W : Type 0) : Type 0 where
  pub conv : Conversation
  pub world : W
  pub metrics : List Metric
  -- the histories that the provider was called with, the latest last
  pub requests : List (List LlmMessage)

-- The keyword arguments of `__init__`; `has_executor` says whether a tool executor is given.
pub record Arguments : Type 0 where
  pub system_prompt : Text
  pub max_history_turns : ℕ
  pub tools : Option (List ToolDefinition)
  pub has_executor : Bool
  pub max_tool_iterations : ℕ
  pub max_conversation_turns : Option ℕ
  pub max_call_duration : Option ℕ
  pub call_started_at : Option ℕ

-- `list(tools) if tools else None`
abbrev pub offered : Option (List ToolDefinition) → Option (List ToolDefinition)
offered (some (t ∷ ts)) = some (t ∷ ts)
offered _ = none

-- `__init__` at the instant `now`: tools and an executor come together, or not at all.
unfoldable pub new_conversation : Arguments → ℕ → Result Conversation
new_conversation a now =
    if xor (is_some (offered a.tools)) a.has_executor
    then err Error.value_error
    else ok (record {
      system_prompt = build_structured_system_prompt a.system_prompt;
      max_history_turns = a.max_history_turns;
      tools = offered a.tools;
      max_tool_iterations = a.max_tool_iterations;
      max_conversation_turns = a.max_conversation_turns;
      max_call_duration = a.max_call_duration;
      call_started_at = get_or a.call_started_at now;
      turn_count = 0;
      history = [];
      last_reply = none;
    })

-- The indices of the user messages, from `i` on.
abbrev pub user_indices : ℕ → List LlmMessage → List ℕ
user_indices i [] = []
user_indices i (m ∷ ms) =
    if is_role m.role Role.user then i ∷ user_indices (suc i) ms else user_indices (suc i) ms

abbrev pub nth : List ℕ → ℕ → ℕ
nth [] k = 0
nth (i ∷ is) zero = i
nth (i ∷ is) (suc k) = nth is k

-- `user_indices[-n]`; `[-0]` is the first element
abbrev pub from_end : ℕ → List ℕ → ℕ
from_end n is = if n == 0 then nth is 0 else nth is (length is - n)

-- `_trim_history`
unfoldable pub trim_history : ℕ → List LlmMessage → List LlmMessage
trim_history max_history_turns history =
    let indices = user_indices 0 history in
    if ltb max_history_turns (length indices)
    then drop (from_end max_history_turns indices) history
    else history

abbrev pub fallback_reply : AgentReply
fallback_reply = record {
  text = fallback_message;
  intent = Intent.general;
  transfer_to_human = true;
}

abbrev pub call_limit_reply : AgentReply
call_limit_reply = record {
  text = call_limit_message;
  intent = Intent.human_transfer;
  transfer_to_human = true;
}

abbrev pub reply_of : Intent → Text → AgentReply
reply_of intent text = record {
  text = text;
  intent = intent;
  transfer_to_human = is_transfer_intent intent;
}

abbrev pub tool_message : ToolCall → Text × Bool → LlmMessage
tool_message call (text, is_error) = record {
  role = Role.tool;
  content = text;
  tool_calls = none;
  tool_call_id = some call.id;
  tool_call_is_error = is_error;
}

module _ {W : Type 0} where
  abbrev pub with_history : List LlmMessage → State W → State W
  with_history h s = record s { conv = record (s.conv) { history = h } }

  abbrev pub append_message : LlmMessage → State W → State W
  append_message m s = with_history (s.conv.history ++ m ∷ []) s

  -- the turn is counted and the caller's text appended
  abbrev pub open_turn : Text → State W → State W
  open_turn caller_text s = record s {
    conv = record (s.conv) {
      turn_count = s.conv.turn_count + 1;
      history = s.conv.history ++ text_message Role.user caller_text ∷ [];
    };
  }

  abbrev pub set_last_reply : AgentReply → State W → State W
  set_last_reply reply s = record s { conv = record (s.conv) { last_reply = some reply } }
