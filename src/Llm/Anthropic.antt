-- ===== src/Llm/Anthropic.antt =====
-- src/openvoice/llm/providers/anthropic.py: the history in Anthropic's wire format, and what an answer is
-- read as. The SDK's call, with its retries, is a parameter.
pub mod Merge
pub mod Streaming
use open_voice.Base.{
  ℕ, ◌≡◌, refl, sym, ◌⊎◌, inl, inr, ◌&&◌, append-nil, ap, ap₂, ◌∙◌, ◌≢◌, Bool, true, false, Option,
  none, some, List, [], ◌∷◌, ◌++◌, append_assoc, map, arith, is_empty, if◌then◌else◌,
}
use open_voice.Base.Text.{Text, codes}
use open_voice.Base.Json.{Fields}
use open_voice.Base.Result.{Error, Result, ok, err}
use open_voice.Llm.{Role, ToolCall, ToolDefinition, LlmMessage, LlmResponse, calls_of}

-- A block of a message's content, and of an answer.
pub data Block : Type 0 where
  text_block : Text → Block
  -- its `input` is an object
  tool_use : Text → Text → Fields → Block
  tool_result : Option Text → Text → Bool → Block
  -- a block of a type that the program does not read
  unread : Block

pub data WireMessage : Type 0 where
  -- `{"role": role, "content": content}`
  plain : Role → Text → WireMessage
  -- with a list of blocks as the content
  blocks : Role → List Block → WireMessage

abbrev pub result_block : LlmMessage → Block
result_block m = tool_result m.tool_call_id m.content m.tool_call_is_error

abbrev pub text_blocks : Text → List Block
text_blocks content = if is_empty content then [] else text_block content ∷ []

abbrev pub use_block : ToolCall → Block
use_block c = tool_use c.id c.name c.arguments

-- a message with calls: `tool_calls` is truthy
abbrev pub assistant_message : LlmMessage → List ToolCall → WireMessage
assistant_message m [] = plain Role.assistant m.content
assistant_message m calls = blocks Role.assistant (text_blocks m.content ++ map use_block calls)

-- a message that is no tool result
abbrev pub single : Role → LlmMessage → WireMessage
single Role.assistant m = assistant_message m (calls_of m.tool_calls)
single role m = plain role m.content

-- `_to_anthropic_messages`. The argument before the messages is `tool_result_blocks` while the
-- inner loop runs, and nothing outside it.
unfoldable pub convert : Option (List Block) → List LlmMessage → List WireMessage
convert none [] = []
convert (some results) [] = blocks Role.user results ∷ []
convert none (m ∷ ms) = elim m.role [
  | Role.tool ↦ convert (some (result_block m ∷ [])) ms
  | role ↦ single role m ∷ convert none ms
]
convert (some results) (m ∷ ms) = elim m.role [
  | Role.tool ↦ convert (some (results ++ result_block m ∷ [])) ms
  | role ↦ blocks Role.user results ∷ single role m ∷ convert none ms
]

abbrev pub to_anthropic_messages : List LlmMessage → List WireMessage
to_anthropic_messages ms = convert none ms

-- The loop over `response.content`: the texts joined, and the tool calls.
unfoldable pub read_blocks : List Block → Text × List ToolCall
read_blocks [] = ([], [])
read_blocks (text_block t ∷ bs) = let (texts, calls) = read_blocks bs in (t ++ texts, calls)
read_blocks (tool_use id name arguments ∷ bs) =
    let (texts, calls) = read_blocks bs in
    (texts, record { id = id; name = name; arguments = arguments } ∷ calls)
read_blocks (_ ∷ bs) = read_blocks bs

-- `tool_calls or None`
abbrev pub calls_or_none : List ToolCall → Option (List ToolCall)
calls_or_none [] = none
calls_or_none calls = some calls

-- What the SDK returns of a message.
pub record Message : Type 0 where
  pub content : List Block
  pub model : Text
  pub input_tokens : ℕ
  pub output_tokens : ℕ

abbrev pub response_of : Message → LlmResponse
response_of m =
    let (texts, calls) = read_blocks m.content in
    record {
      content = texts;
      model = m.model;
      input_tokens = some m.input_tokens;
      output_tokens = some m.output_tokens;
      tool_calls = calls_or_none calls;
    }

-- An `anthropic.APIError`, or another exception.
pub data SdkError : Type 0 where
  api_error : Text → SdkError
  other : Error → SdkError

pub data SdkResult : Type 0 where
  answer : Message → SdkResult
  failed : SdkError → SdkResult

abbrev pub generated : SdkResult → Result LlmResponse
generated (answer m) = ok (response_of m)
generated (failed (api_error why)) =
    err (Error.llm_provider_error (codes "Anthropic API call failed: " ++ why))
generated (failed (other e)) = err e

-- `generate`: `create` is the retried call of the SDK
unfoldable pub generate :
    (List WireMessage → Option Text → List ToolDefinition → SdkResult)
    → List LlmMessage
    → Option Text
    → Option (List ToolDefinition)
    → Result LlmResponse
generate create messages system_prompt none =
    generated (create (to_anthropic_messages messages) system_prompt [])
generate create messages system_prompt (some tools) =
    generated (create (to_anthropic_messages messages) system_prompt tools)
