-- ===== src/Llm/Openai/Generate.antt =====
-- `generate` and `generate_stream` of src/openvoice/llm/providers/openai_compatible.py. The SDK's calls, with their
-- retries, are parameters; so is `json.loads`.
use open_voice.Base.{ℕ, Option, none, some, List, [], ◌∷◌, ◌++◌}
use mathlib.Core.Option.{get_or}
use mathlib.Core.Option
use open_voice.Base.Text.{Text, codes}
use open_voice.Base.Json.{Json}
use open_voice.Base.Result.{Error, Result, ok, err, then_ok}
use open_voice.Llm.{ToolCall, ToolDefinition, LlmMessage, LlmResponse}
use open_voice.Llm.Openai.{WireMessage, system, RawCall, to_openai_messages, parse_tool_calls}

-- What the SDK returns of a completion: the message of a choice, and the usage.
pub record Choice : Type 0 where
  pub content : Option Text
  pub tool_calls : Option (List RawCall)

pub record Completion : Type 0 where
  pub choices : List Choice
  pub model : Text
  pub usage : Option (ℕ × ℕ)

-- An `openai.APIError`, or another exception.
pub data SdkError : Type 0 where
  api_error : Text → SdkError
  other : Error → SdkError

pub data SdkResult (A : Type 0) : Type 0 where
  answer : A → SdkResult A
  failed : SdkError → SdkResult A

-- The messages and the tools of a request.
pub record Request : Type 0 where
  pub messages : List WireMessage
  pub tools : List ToolDefinition

abbrev pub prompt_message : Option Text → List WireMessage
prompt_message none = []
prompt_message (some prompt) = system prompt ∷ []

-- `if tools`
abbrev pub offered_tools : Option (List ToolDefinition) → List ToolDefinition
offered_tools none = []
offered_tools (some tools) = tools

abbrev pub request_of :
    (Json → Text) → List LlmMessage → Option Text → Option (List ToolDefinition) → Request
request_of dumps messages prompt tools = record {
  messages = prompt_message prompt ++ to_openai_messages dumps messages;
  tools = offered_tools tools;
}

abbrev pub raised_as : Text → SdkError → Error
raised_as what (api_error why) = Error.llm_provider_error (what ++ why)
raised_as what (other e) = e

module _ (loads : Text → Option Json) where
  abbrev pub response_with : Completion → Choice → Option (List ToolCall) → LlmResponse
  response_with c choice calls = record {
    content = get_or choice.content [];
    model = c.model;
    input_tokens = Option.map (λ (u : ℕ × ℕ). u.0) c.usage;
    output_tokens = Option.map (λ (u : ℕ × ℕ). u.1) c.usage;
    tool_calls = calls;
  }

  -- `response.choices[0]`
  abbrev pub first_choice : Completion → List Choice → Result LlmResponse
  first_choice c [] = err (Error.other (codes "IndexError"))
  first_choice c (choice ∷ choices) =
      then_ok (parse_tool_calls loads choice.tool_calls) λ calls. ok (response_with c choice calls)

  abbrev pub read_completion : SdkResult Completion → Result LlmResponse
  read_completion (answer c) = first_choice c c.choices
  read_completion (failed e) = err (raised_as (codes "OpenAI-compatible API call failed: ") e)

  -- `generate`: `create` is the retried call of the SDK
  unfoldable pub generate :
      (Json → Text)
      → (Request → SdkResult Completion)
      → List LlmMessage
      → Option Text
      → Option (List ToolDefinition)
      → Result LlmResponse
  generate dumps create messages prompt tools =
      read_completion (create (request_of dumps messages prompt tools))

-- A chunk of a stream: the content of the delta of its first choice, if it has a choice.
abbrev pub Chunk : Type 0
Chunk = Option (Option Text)

-- `if delta: yield delta`
abbrev pub delta_of : Chunk → List Text
delta_of (some (some (c ∷ delta))) = (c ∷ delta) ∷ []
delta_of chunk = []

-- the loop over the stream
abbrev pub deltas_of : List Chunk → List Text
deltas_of [] = []
deltas_of (chunk ∷ chunks) = delta_of chunk ++ deltas_of chunks

abbrev pub chunks_failed : SdkError → Error
chunks_failed e = raised_as (codes "OpenAI-compatible streaming call failed: ") e

abbrev pub chunked : SdkResult (List Chunk × Option SdkError) → List Text × Option Error
chunked (failed e) = ([], some (chunks_failed e))
chunked (answer (chunks, broken)) = (deltas_of chunks, Option.map chunks_failed broken)

-- `generate_stream`: the deltas that are yielded, and the exception that ended it, if one did. `create` is the
-- retried call that opens the stream; the stream is its chunks, and what broke it off.
unfoldable pub generate_stream :
    (Json → Text)
    → (Request → SdkResult (List Chunk × Option SdkError))
    → List LlmMessage
    → Option Text
    → List Text × Option Error
generate_stream dumps create messages prompt =
    chunked (create (request_of dumps messages prompt none))
