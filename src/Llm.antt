-- ===== src/Llm.antt =====
-- src/openvoice/llm/base.py: the provider-agnostic messages.
pub mod Anthropic
pub mod Openai
mod Tests
use open_voice.Base.{ℕ, Bool, true, false, Option, none, some, List, []}
use open_voice.Base.Text.{Text}
use open_voice.Base.Json.{Json, Fields}

-- `LLMMessageRole`
pub data Role : Type 0 where
  user assistant tool : Role

pub record ToolDefinition : Type 0 where
  pub name : Text
  pub description : Text
  pub parameters : Json

pub record ToolCall : Type 0 where
  pub id : Text
  pub name : Text
  -- `dict[str, Any]`
  pub arguments : Fields

pub record LlmMessage : Type 0 where
  pub role : Role
  pub content : Text
  pub tool_calls : Option (List ToolCall)
  pub tool_call_id : Option Text
  pub tool_call_is_error : Bool

pub record LlmResponse : Type 0 where
  pub content : Text
  pub model : Text
  pub input_tokens : Option ℕ
  pub output_tokens : Option ℕ
  pub tool_calls : Option (List ToolCall)

-- `LLMMessage(role=..., content=...)`, with the defaults of the class
abbrev pub text_message : Role → Text → LlmMessage
text_message role content = record {
  role = role;
  content = content;
  tool_calls = none;
  tool_call_id = none;
  tool_call_is_error = false;
}

abbrev pub is_role : Role → Role → Bool
is_role Role.user Role.user = true
is_role Role.assistant Role.assistant = true
is_role Role.tool Role.tool = true
is_role _ _ = false

-- The calls of a message or a response that are made: both `None` and an empty list are falsy.
abbrev pub calls_of : Option (List ToolCall) → List ToolCall
calls_of none = []
calls_of (some calls) = calls
