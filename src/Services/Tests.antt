-- ===== src/Services/Tests.antt =====
-- Instances of the theorems about a process.
use open_voice.Base.{ℕ, ◌≡◌, refl, true, none, some, List, [], ◌∷◌, ◌++◌}
use open_voice.Base.Text.{Text, codes}
use open_voice.Base.Json.{Fields}
use open_voice.Base.Result.{ok}
use open_voice.Llm.{LlmResponse}
use open_voice.Crm.{get_or_create_client}
use open_voice.Db.{Appointment, AppointmentStatus, Db, find_call, insert_client}
use open_voice.Telephony.Call.{call_row, transcript_rows, completed_call, finalize_call, start_call}
use open_voice.Services.Finished.{call_finishes}
use open_voice.Config.{Settings, default_settings}
use open_voice.Config.Factories.{Packages}
use open_voice.Conversation.{Providers, State}
use open_voice.Conversation.Loop.Limit.{talk}
use open_voice.Booking.Service.{Calendar}
use open_voice.Tools.{Libraries, Binding, valid, invalid, aware}
use open_voice.Tools.Guards.Rows.{KeepsOthers}
use open_voice.Services.{Clients, service_of}
use open_voice.Services.Line.{Line, with_tools, talk_others}
use open_voice.Services.Prompts.{Zones, zone}

abbrev settings : Settings
settings = record (default_settings (codes "0123456789abcdef") (codes "postgresql://db")) {
  anthropic_api_key = some (codes "sk");
  google_service_account_json_path = some (codes "key.json");
}

abbrev packages : Packages
packages = record {
  faster_whisper = true;
  piper = true;
  google = true;
  whisper_model = λ size device compute_type. ok tt;
  piper_load = λ path. ok tt;
  google_client = λ path. ok tt;
}

abbrev calendar : Calendar
calendar = record {
  on_list = λ log start end. ok [];
  on_create = λ log start end summary. ok (codes "ev-1");
  on_cancel = λ log event_id. ok tt;
  on_reschedule = λ log event_id start end. ok tt;
}

abbrev clients : Clients
clients = record {
  google = λ config. calendar;
  twilio = λ config sent message. ok tt;
  resend = λ config sent message. ok tt;
  strftime = λ t. codes "then";
  isoformat = λ t. codes "then";
}

-- Every key is appointment 2's, and whatever is asked for is confirmed.
abbrev libraries : Libraries
libraries = record {
  validate_check = λ j. valid (record { duration_minutes = none; search_days = none });
  validate_book = λ j. invalid (codes "no");
  validate_id = λ j. valid (record { appointment_id = codes "2"; caller_confirmed = true });
  validate_reschedule = λ j. invalid (codes "no");
  fromisoformat = λ t. some (aware 100);
  parse_uuid = λ t. some 2;
  print_uuid = λ n. codes "2";
  dumps = λ j. codes "[]";
  print_error = λ e. codes "unreachable";
}

abbrev zones : Zones (Unit {0})
zones = record {
  zone_info = λ key. zone tt;
  long_format = λ z t. codes "Monday";
  tzname = λ z t. codes "UTC";
  offset = λ z t. codes "+0000";
}

abbrev binding : Binding
binding = record {
  service =
      service_of clients settings (record { calendar_id = []; service_account_json_path = [] }) none
        none;
  libraries = libraries;
  client_id = 1;
  call_id = none;
  now = 50;
}

-- Its key is asked for by client 1, but it is client 7's.
abbrev row : Appointment
row = record {
  id = 2;
  client_id = 7;
  call_id = none;
  starts_at = 100;
  ends_at = 200;
  status = AppointmentStatus.confirmed;
  calendar_event_id = some (codes "ev-0");
  notes = none;
}

-- The language model asks for a cancellation each time, and counts.
abbrev asking : LlmResponse
asking = record {
  content = [];
  model = codes "m";
  input_tokens = none;
  output_tokens = none;
  tool_calls =
      some (
        record { id = codes "c1"; name = codes "cancel_appointment"; arguments = Fields.end } ∷ []);
}

abbrev providers : Providers (Line ℕ)
providers = record {
  generate = λ history prompt tools line. (ok asking, record line { rest = 1 });
  generate_stream = λ history prompt line. (([], none), line);
  tool_executor = none;
  now = λ line. 60;
}

abbrev started : State (Line ℕ)
started = record {
  conv = record {
    system_prompt = codes "Be kind.";
    max_history_turns = 20;
    tools = none;
    max_tool_iterations = 4;
    max_conversation_turns = none;
    max_call_duration = none;
    call_started_at = 0;
    turn_count = 0;
    history = [];
    last_reply = none;
  };
  world = record {
    world = record {
      db = record {
        clients = [];
        appointments = row ∷ [];
        calls = [];
        transcripts = [];
        next_id = 9;
      };
      calendar_log = [];
      outbox = [];
    };
    rest = 0;
  };
  metrics = [];
  requests = [];
}

talk_others_example :
    KeepsOthers 1 started.world.world
      (talk
        (with_tools binding providers)
        (codes "Cancel it." ∷ codes "Yes." ∷ [])
        started).world.world
talk_others_example =
    talk_others binding providers (λ history prompt tools line. refl)
      (codes "Cancel it." ∷ codes "Yes." ∷ []) started

-- The call of a new caller, in an empty database.
abbrev empty : Db
empty = record { clients = []; appointments = []; calls = []; transcripts = []; next_id = 1 }

abbrev room : Text
room = codes "room"

abbrev begun_db : Db
begun_db = record {
  clients =
      record { id = 1; phone_number = codes "+33600"; full_name = none; email = none; notes = none }
      ∷ [];
  appointments = [];
  calls = call_row 5 (some 1) room 7 ∷ [];
  transcripts = [];
  next_id = 2;
}

abbrev begun : State (Line ℕ)
begun = record started {
  world = record { world = record { db = begun_db; calendar_log = []; outbox = [] }; rest = 0 };
}

starts : start_call 5 room 7 (some (codes "+33600")) empty ≡ (ok (some 1), begun_db)
unfolding start_call get_or_create_client insert_client
starts = refl

abbrev said : List Text
said = codes "Cancel it." ∷ []

call_finishes_example :
    let after = talk (with_tools binding providers) said begun in
    (d : Db) × (finalize_call 5 90 after.conv.history after.world.world.db ≡ ok d)
    × (find_call 5 d.calls ≡ some (completed_call 90 (call_row 5 (some 1) room 7)))
    × (d.transcripts ≡ [] ++ transcript_rows 5 0 after.conv.history)
call_finishes_example =
    call_finishes binding providers (λ history prompt tools line. refl) 5 7 90 room
      (some (codes "+33600")) empty (some 1) said begun (refl, tt) starts
