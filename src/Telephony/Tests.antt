-- ===== src/Telephony/Tests.antt =====
-- Runs of the sentence cutter and instances of the theorems about speech and transcripts.
use open_voice.Base.{true, false, none, some, ◌++◌, ℕ, ◌≡◌, refl, List, [], ◌∷◌, concat, length}
use open_voice.Base.Text.{Text, codes, strip, is_space}
use open_voice.Llm.{Role, LlmMessage, text_message}
use open_voice.Base.Result.{Error, err}
use open_voice.Reply.{fresh, feed_all}
use open_voice.Conversation.{Providers, State, fallback_message}
use open_voice.Conversation.Loop.{call_limit_reached}
use open_voice.Conversation.Stream.{speakable}
use open_voice.Telephony.Agent.{ChatMessage, llm_node}
use open_voice.Telephony.Agent.Transfers.{llm_node_failed}
use open_voice.Telephony.Speech.{find_sentence_end, cut_sentences, tts_node}
use open_voice.Telephony.Speech.Chunks.{visible, tts_node-concat, tts_node-visible}
use open_voice.Telephony.Call.{transcript_rows}
use open_voice.Telephony.Call.Transcript.{Transcribes, Numbered, transcript_rows_complete}

abbrev chunks : List Text
chunks = codes "It costs 3." ∷ codes "14 euros. Shall" ∷ codes " I book?" ∷ []

tts_node_run : tts_node [] chunks ≡ codes "It costs 3.14 euros." ∷ codes "Shall I book?" ∷ []
unfolding tts_node cut_sentences find_sentence_end strip is_space
tts_node_run = refl

tts_node-concat_example : tts_node [] chunks ≡ tts_node [] (concat chunks ∷ [])
tts_node-concat_example = tts_node-concat chunks

tts_node-visible_example : visible (concat (tts_node [] chunks)) ≡ visible (concat chunks)
tts_node-visible_example = tts_node-visible chunks

abbrev history : List LlmMessage
history =
    text_message Role.user (codes "Hello")
    ∷ text_message Role.tool (codes "[]")
    ∷ text_message Role.assistant (codes "Hi")
    ∷ []

transcript_rows_complete_example :
    Transcribes 4 0 history (transcript_rows 4 0 history)
    × Numbered 0 (length history) (transcript_rows 4 0 history)
transcript_rows_complete_example = transcript_rows_complete 4 history

abbrev providers : Providers (Unit {0})
providers = record {
  generate = λ history prompt tools w. (err (Error.llm_provider_error (codes "down")), w);
  generate_stream = λ history prompt w.
      ((codes "Let me" ∷ [], some (Error.llm_provider_error (codes "down"))), w);
  tool_executor = none;
  now = λ w. 0;
}

abbrev after_turns : ℕ → State (Unit {0})
after_turns n = record {
  conv = record {
    system_prompt = [];
    max_history_turns = 5;
    tools = none;
    max_tool_iterations = 5;
    max_conversation_turns = some 3;
    max_call_duration = none;
    call_started_at = 0;
    turn_count = n;
    history = [];
    last_reply = none;
  };
  world = tt;
  metrics = [];
  requests = [];
}

abbrev messages : List ChatMessage
messages = record { is_user = true; text_content = some (codes "Hello") } ∷ []

below_limit : call_limit_reached providers (after_turns 1) ≡ false
unfolding call_limit_reached
below_limit = refl

llm_node_failed_example :
    ((llm_node providers true messages (after_turns 1)).0.deltas
      ≡ speakable (feed_all fresh (codes "Let me" ∷ [])).0 ++ fallback_message ∷ [])
    × ((llm_node providers true messages (after_turns 1)).0.transferring ≡ true)
    × ((llm_node providers true messages (after_turns 1)).1.conv.history ≡ [])
llm_node_failed_example =
    llm_node_failed providers messages (codes "Hello") (after_turns 1) (codes "Let me" ∷ [])
      (codes "down") refl refl below_limit refl
