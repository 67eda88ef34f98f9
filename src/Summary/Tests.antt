-- ===== src/Summary/Tests.antt =====
-- An instance of the theorem about a call's summary.
use open_voice.Base.{none, List, [], ◌∷◌}
use open_voice.Base.Text.{Text, codes}
use open_voice.Base.Result.{Result, ok}
use open_voice.Llm.{LlmMessage, LlmResponse}
use open_voice.Db.{Call, CallDirection, CallStatus, CallTranscript, SpeakerRole, Db}
use open_voice.Summary.{OnlySummary, summarize_call, summarize_call-OnlySummary}

abbrev ended : Call
ended = record {
  id = 4;
  client_id = none;
  livekit_room_name = codes "r";
  direction = CallDirection.inbound;
  status = CallStatus.completed;
  started_at = 10;
  ended_at = none;
  summary = none;
}

abbrev said : CallTranscript
said = record { call_id = 4; sequence = 0; role = SpeakerRole.caller; text = codes "Hello" }

abbrev db : Db
db = record {
  clients = [];
  appointments = [];
  calls = ended ∷ [];
  transcripts = said ∷ [];
  next_id = 5;
}

abbrev generate : List LlmMessage → Text → Result LlmResponse
generate = λ history prompt. ok (record {
  content = codes "A greeting.";
  model = codes "m";
  input_tokens = none;
  output_tokens = none;
  tool_calls = none;
})

summarize_call-OnlySummary_example : OnlySummary 4 db (summarize_call generate 4 db).1
summarize_call-OnlySummary_example = summarize_call-OnlySummary generate 4 db
