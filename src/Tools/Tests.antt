-- ===== src/Tools/Tests.antt =====
-- Instances of the theorems about the booking tools, with validators that read the fields they need.
use open_voice.Base.{refl, Bool, true, false, none, some, [], ◌∷◌}
use open_voice.Base.Text.{Text, codes}
use open_voice.Base.Json.{Json, Fields}
use open_voice.Base.Result.{Error, ok, err}
use open_voice.Llm.{ToolCall}
use open_voice.Db.{Appointment, AppointmentStatus}
use open_voice.Booking.Service.{Calendar, Service, World}
use open_voice.Tools.{Libraries, Binding, valid, invalid, aware}
use open_voice.Tools.Executor.{execute}
use open_voice.Tools.Guards.Confirmed.{Untouched, execute_unconfirmed}
use open_voice.Tools.Guards.Rows.{KeepsOthers}
use open_voice.Tools.Guards.Ownership.{execute_others}

abbrev calendar : Calendar
calendar = record {
  on_list = λ log start end. err (Error.calendar_error (codes "unreachable"));
  on_create = λ log start end summary. ok (codes "ev-1");
  on_cancel = λ log event_id. ok tt;
  on_reschedule = λ log event_id start end. ok tt;
}

abbrev service : Service
service = record {
  calendar = calendar;
  sms = none;
  email = none;
  hours = record {
    business_hours_start = 9;
    business_hours_end = 17;
    default_duration_minutes = 30;
  };
  strftime = λ t. codes "then";
  isoformat = λ t. codes "then";
}

abbrev confirmed_by : Json → Bool
confirmed_by (Json.object (Fields.field name (Json.boolean b) rest)) = b
confirmed_by j = false

abbrev libraries : Libraries
libraries = record {
  validate_check = λ j. valid (record { duration_minutes = none; search_days = none });
  validate_book = λ j. valid (record {
    start = codes "s";
    end = codes "e";
    notes = none;
    caller_confirmed = confirmed_by j;
  });
  validate_id =
      λ j. valid (record { appointment_id = codes "2"; caller_confirmed = confirmed_by j });
  validate_reschedule = λ j. invalid (codes "no");
  fromisoformat = λ t. some (aware 100);
  parse_uuid = λ t. some 2;
  print_uuid = λ n. codes "2";
  dumps = λ j. codes "[]";
  print_error = λ e. codes "unreachable";
}

abbrev binding : Binding
binding = record {
  service = service;
  libraries = libraries;
  client_id = 1;
  call_id = none;
  now = 50;
}

-- Its key is asked for by client 1, but it is client 7's.
abbrev row : Appointment
row = record {
  id = 2;
  client_id = 7;
  call_id = none;
  starts_at = 100;
  ends_at = 200;
  status = AppointmentStatus.confirmed;
  calendar_event_id = some (codes "ev-0");
  notes = none;
}

abbrev world : World
world = record {
  db = record { clients = []; appointments = row ∷ []; calls = []; transcripts = []; next_id = 9 };
  calendar_log = [];
  outbox = [];
}

abbrev call_of : Text → Bool → ToolCall
call_of name b = record {
  id = codes "c1";
  name = name;
  arguments = Fields.field (codes "caller_confirmed") (Json.boolean b) Fields.end;
}

execute_unconfirmed_example :
    Untouched world (execute binding (call_of (codes "book_appointment") false) world).1
execute_unconfirmed_example =
    execute_unconfirmed binding (call_of (codes "book_appointment") false) world refl

execute_others_example :
    KeepsOthers 1 world (execute binding (call_of (codes "cancel_appointment") true) world).1
execute_others_example = execute_others binding world (call_of (codes "cancel_appointment") true)
