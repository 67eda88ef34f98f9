-- ===== src/Conversation/Tests.antt =====
-- Instances of the theorems about a conversation, on a provider that asks for one tool call and then
-- answers.
use open_voice.Base.{
  ℕ, suc, ◌≡◌, ◌<◌, ◌≤◌, refl, ◌⊎◌, false, Option, none, some, List, [], ◌∷◌, ◌++◌, arith, ◌==◌,
  if◌then◌else◌, concat,
}
use open_voice.Base.Text.{Text, codes, strip}
use open_voice.Base.Json.{Json, Fields}
use open_voice.Base.Result.{Result, ok}
use open_voice.Llm.{ToolDefinition, ToolCall, LlmResponse}
use open_voice.Reply.{AgentReply, newline}
use open_voice.Conversation.{
  Providers, State, trim_history, call_limit_reply, call_limit_message, set_last_reply,
}
use open_voice.Conversation.History.{Turn, transcript, last, trim_history-transcript}
use open_voice.Conversation.Loop.{call_limit_reached, handle_utterance}
use open_voice.Conversation.Loop.Limit.{talk, talk_ends}
use open_voice.Conversation.Loop.Turns.{Settles, handle_utterance-Settles}
use open_voice.Conversation.Loop.Requests.{Asks, handle_utterance-Asks}
use open_voice.Conversation.Stream.{handle_utterance_stream}
use open_voice.Conversation.Stream.Turns.{StreamSettles, handle_utterance_stream-Settles}
use open_voice.Conversation.Stream.Same.{SameCompletion, stream_same_reply}

abbrev lookup : ToolCall
lookup = record { id = codes "c1"; name = codes "list_my_appointments"; arguments = Fields.end }

abbrev with_call : LlmResponse
with_call = record {
  content = [];
  model = codes "m";
  input_tokens = none;
  output_tokens = none;
  tool_calls = some (lookup ∷ []);
}

abbrev deltas : List Text
deltas = codes "You have none." ∷ (newline ++ codes "###INTENT: boo") ∷ codes "king" ∷ []

abbrev completion : LlmResponse
completion = record {
  content = concat deltas;
  model = codes "m";
  input_tokens = none;
  output_tokens = none;
  tool_calls = none;
}

-- The world counts the calls.
abbrev answer_at : ℕ → Result LlmResponse × ℕ
answer_at n = (ok (if n == 0 then with_call else completion), suc n)

abbrev providers : Providers ℕ
providers = record {
  generate = λ history prompt tools n. answer_at n;
  generate_stream = λ history prompt n. ((deltas, none), suc n);
  tool_executor = some (λ call n. (ok (codes "No upcoming appointments.", false), n));
  now = λ n. 0;
}

abbrev greeting : Turn
greeting = record { caller_text = codes "Hello"; rounds = []; reply = codes "How can I help?" }

abbrev before : List Turn
before = greeting ∷ []

abbrev definition : ToolDefinition
definition = record {
  name = codes "list_my_appointments";
  description = [];
  parameters = Json.null;
}

abbrev started : Option (List ToolDefinition) → ℕ → State ℕ
started tools n = record {
  conv = record {
    system_prompt = codes "Be kind.";
    max_history_turns = 1;
    tools = tools;
    max_tool_iterations = 5;
    max_conversation_turns = some 3;
    max_call_duration = none;
    call_started_at = 0;
    turn_count = 1;
    history = transcript before;
    last_reply = none;
  };
  world = n;
  metrics = [];
  requests = [];
}

abbrev with_tools : State ℕ
with_tools = started (some (definition ∷ [])) 0

abbrev without_tools : State ℕ
without_tools = started none 1

abbrev question : Text
question = codes "What do I have?"

handle_utterance-Settles_example :
    (handle_utterance providers question with_tools ≡ (ok call_limit_reply, with_tools))
    ⊎ Settles before question 1 (handle_utterance providers question with_tools)
handle_utterance-Settles_example =
    handle_utterance-Settles providers before question with_tools refl

handle_utterance-Asks_example :
    Asks before question 5 [] (handle_utterance providers question with_tools).1.requests
    × ((call_limit_reached providers with_tools ≡ false)
        ⊎ ((handle_utterance providers question with_tools).1.requests ≡ []))
handle_utterance-Asks_example = handle_utterance-Asks providers before question with_tools refl

handle_utterance_stream-Settles_example :
    (handle_utterance_stream providers question without_tools
      ≡ ((call_limit_message ∷ [], none), set_last_reply call_limit_reply without_tools))
    ⊎ StreamSettles before question 1 (handle_utterance_stream providers question without_tools)
handle_utterance_stream-Settles_example =
    handle_utterance_stream-Settles providers before question without_tools refl refl

below_limit : call_limit_reached providers without_tools ≡ false
unfolding call_limit_reached
below_limit = refl

same_completion : SameCompletion providers question without_tools completion deltas
same_completion = (refl, refl, refl, refl)

stream_same_reply_example :
    (whole : AgentReply) × (streamed : AgentReply) × ((handle_utterance providers question
        without_tools).0
      ≡ ok whole)
    × ((handle_utterance_stream providers question without_tools).1.conv.last_reply ≡ some streamed)
    × (streamed.intent ≡ whole.intent)
    × (streamed.transfer_to_human ≡ whole.transfer_to_human)
    × ((strip streamed.text ≡ []) ⊎ (strip streamed.text ≡ whole.text))
stream_same_reply_example =
    stream_same_reply providers question without_tools 4 completion deltas refl refl below_limit
      same_completion

positive : 0 < 1
positive = omega arith

trim_history-transcript_example :
    trim_history 1 (transcript (greeting ∷ greeting ∷ []))
    ≡ transcript (last 1 (greeting ∷ greeting ∷ []))
trim_history-transcript_example = trim_history-transcript 1 (greeting ∷ greeting ∷ []) positive

two_more : 3 ≤ 3
two_more = omega arith

talk_ends_example :
    handle_utterance providers question (talk providers (question ∷ question ∷ []) with_tools)
    ≡ (ok call_limit_reply, talk providers (question ∷ question ∷ []) with_tools)
talk_ends_example =
    talk_ends providers 3 (question ∷ question ∷ []) question with_tools refl two_more
