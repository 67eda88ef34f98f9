-- ===== src/Llm/Openai.antt =====
-- src/openvoice/llm/providers/openai_compatible.py: the history in OpenAI's wire format, and what an answer
-- is read as. The SDK's call, with its retries, and `json` are parameters.
pub mod Generate
use open_voice.Base.{◌≡◌, refl, Option, none, some, List, [], ◌∷◌, ◌++◌, map, arith, if◌then◌else◌}
use open_voice.Base.Text.{Text, codes}
use open_voice.Base.Json.{Json, Fields}
use open_voice.Base.Result.{Error, Result, ok, err, then_ok}
use open_voice.Llm.{Role, ToolCall, LlmMessage, calls_of}

-- an entry of `tool_calls`, to the API and from it: `arguments` is a JSON text
pub record WireCall : Type 0 where
  pub id : Text
  pub name : Text
  pub arguments : Text

pub data WireMessage : Type 0 where
  system : Text → WireMessage
  plain : Role → Text → WireMessage
  tool : Option Text → Text → WireMessage
  assistant : Option Text → List WireCall → WireMessage

-- `message.content or None`
abbrev pub content_or_none : Text → Option Text
content_or_none [] = none
content_or_none content = some content

abbrev pub tool_content : LlmMessage → Text
tool_content m = if m.tool_call_is_error then codes "Error: " ++ m.content else m.content

module _ (dumps : Json → Text) where
  abbrev pub wire_call : ToolCall → WireCall
  wire_call c = record { id = c.id; name = c.name; arguments = dumps (Json.object c.arguments) }

  abbrev pub assistant_message : LlmMessage → List ToolCall → WireMessage
  assistant_message m [] = plain Role.assistant m.content
  assistant_message m calls = assistant (content_or_none m.content) (map wire_call calls)

  abbrev pub to_openai_message : LlmMessage → WireMessage
  to_openai_message m = elim m.role [
    | Role.tool ↦ tool m.tool_call_id (tool_content m)
    | Role.assistant ↦ assistant_message m (calls_of m.tool_calls)
    | Role.user ↦ plain Role.user m.content
  ]

  -- `_to_openai_messages`
  unfoldable pub to_openai_messages : List LlmMessage → List WireMessage
  to_openai_messages [] = []
  to_openai_messages (m ∷ ms) = to_openai_message m ∷ to_openai_messages ms

-- An entry of the answer's `tool_calls`: its id and its `function`, which it may lack.
pub record RawCall : Type 0 where
  pub id : Text
  pub function : Option (Text × Text)

module _ (loads : Text → Option Json) where
  -- `json.loads(arguments)`, or the marker of text that is no JSON
  abbrev pub parsed_arguments : Text → Json
  parsed_arguments raw = elim (loads raw) [
    | some arguments ↦ arguments
    | none ↦ Json.object (Fields.field (codes "_parse_error") (Json.string raw) Fields.end)
  ]

  -- `ToolCall(...)`: arguments that are no object make a `ValidationError`, which is a `ValueError`
  abbrev pub tool_call : Text → Text → Json → Result ToolCall
  tool_call id name (Json.object fields) = ok (record { id = id; name = name; arguments = fields })
  tool_call id name j = err Error.value_error

  -- the loop over the entries
  unfoldable pub parse_calls : List RawCall → Result (List ToolCall)
  parse_calls [] = ok []
  parse_calls (raw ∷ raws) = elim raw.function [
    | none ↦ parse_calls raws
    | some (name, arguments) ↦
        then_ok (tool_call raw.id name (parsed_arguments arguments))
          λ call. then_ok (parse_calls raws) λ calls. ok (call ∷ calls)
  ]

  -- `tool_calls or None`
  abbrev pub calls_or_none : List ToolCall → Option (List ToolCall)
  calls_or_none [] = none
  calls_or_none calls = some calls

  -- `_parse_tool_calls`
  abbrev pub parse_tool_calls : Option (List RawCall) → Result (Option (List ToolCall))
  parse_tool_calls none = ok none
  parse_tool_calls (some raws) = then_ok (parse_calls raws) λ calls. ok (calls_or_none calls)

-- an entry that the API would give back for a call that it was sent
abbrev pub echoed : WireCall → RawCall
echoed c = record { id = c.id; function = some (c.name, c.arguments) }

-- The calls of an assistant message, sent and read back, are the same calls: for a `json` whose
-- `loads` reads what its `dumps` writes.
pub parse_calls-wire_call :
    (dumps : Json → Text) (loads : Text → Option Json)
    → ((j : Json) → loads (dumps j) ≡ some j)
    → (calls : List ToolCall)
    → parse_calls loads (map echoed (map (wire_call dumps) calls)) ≡ ok calls
unfolding parse_calls
parse_calls-wire_call dumps loads round [] = refl
parse_calls-wire_call dumps loads round (c ∷ calls) =
    ground (arith, round (Json.object c.arguments), parse_calls-wire_call dumps loads round calls)
