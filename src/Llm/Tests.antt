-- ===== src/Llm/Tests.antt =====
-- Instances of the theorems about the wire formats.
use open_voice.Base.{Bool, true, All, ◌≡◌, false, none, some, List, [], ◌∷◌}
use open_voice.Base.Text.{Text, codes}
use open_voice.Base.Json.{Fields}
use open_voice.Llm.{Role, ToolCall, LlmMessage, text_message}
use open_voice.Llm.Anthropic.{to_anthropic_messages}
use open_voice.Llm.Anthropic.Merge.{
  IsMade, said_by_caller, said_by_model, called, answered, read_back, Merged,
  read_back-to_anthropic_messages, to_anthropic_messages-Merged,
}

abbrev result : Text → Bool → LlmMessage
result id is_error = record {
  role = Role.tool;
  content = codes "ok";
  tool_calls = none;
  tool_call_id = some id;
  tool_call_is_error = is_error;
}

abbrev two_calls : List ToolCall
two_calls =
    record { id = codes "a"; name = codes "f"; arguments = Fields.end }
    ∷ record { id = codes "b"; name = codes "g"; arguments = Fields.end }
    ∷ []

abbrev history : List LlmMessage
history =
    text_message Role.user (codes "Hello")
    ∷ record {
      role = Role.assistant;
      content = [];
      tool_calls = some two_calls;
      tool_call_id = none;
      tool_call_is_error = false;
    }
    ∷ result (codes "a") false
    ∷ result (codes "b") true
    ∷ text_message Role.assistant (codes "Done")
    ∷ []

history-IsMade : All IsMade history
history-IsMade = (
  said_by_caller (codes "Hello"),
  (
    called [] _ _,
    (
      answered (some (codes "a")) _ false,
      (answered (some (codes "b")) _ true, (said_by_model (codes "Done"), tt)),
    ),
  ),
)

read_back-to_anthropic_messages_example : read_back (to_anthropic_messages history) ≡ history
read_back-to_anthropic_messages_example = read_back-to_anthropic_messages history history-IsMade

to_anthropic_messages-Merged_example : Merged (to_anthropic_messages history)
to_anthropic_messages-Merged_example = to_anthropic_messages-Merged history
