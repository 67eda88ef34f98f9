-- ===== src/Api/Tests.antt =====
-- Instances of the theorems about the API.
use open_voice.Base.{◌≡◌, ◌<◌, refl, true, none, some, List, [], ◌∷◌, arith}
use open_voice.Base.Text.{codes}
use open_voice.Base.Result.{Error, ok, err}
use open_voice.Db.{Appointment, AppointmentStatus, Client}
use open_voice.Config.{Settings, default_settings}
use open_voice.Config.Factories.{Packages}
use open_voice.Booking.Service.{Calendar, Service, World}
use open_voice.Booking.Service.Actions.{send_confirmation}
use open_voice.Services.{Clients, get_booking_service, service_of}
use open_voice.Notifications.{twilio_sender, resend_sender}
use open_voice.Notifications.Sample.{
  sample_http, sample_http-IsRetryer, sample_http-RaisesOnlyHttpErrors,
}
use open_voice.Api.Appointments.{AppointmentCreateRequest, create_appointment}
use open_voice.Api.Created.{Tells, create_appointment-Tells}
use open_voice.Api.Health.{Probes, Reports, check_livekit, health, health-Reports}
use open_voice.Api.Schedule.{Command, book, cancel, move, step, perform, schedule_of, run_commands}
use open_voice.Api.Schedule.Refines.{IsBooked, IsAccepting}
use open_voice.Api.Schedule.Runs.{run_commands_refine}

abbrev calendar : Calendar
calendar = record {
  on_list = λ log start end. ok [];
  on_create = λ log start end summary. ok (codes "ev-1");
  on_cancel = λ log event_id. ok tt;
  on_reschedule = λ log event_id start end. ok tt;
}

abbrev clients : Clients
clients = record {
  google = λ config. calendar;
  twilio = twilio_sender sample_http;
  resend = resend_sender sample_http;
  strftime = λ t. codes "then";
  isoformat = λ t. codes "then";
}

abbrev packages : Packages
packages = record {
  faster_whisper = true;
  piper = true;
  google = true;
  whisper_model = λ size device compute_type. ok tt;
  piper_load = λ path. ok tt;
  google_client = λ path. ok tt;
}

abbrev settings : Settings
settings = record (default_settings (codes "0123456789abcdef") (codes "postgresql://db")) {
  google_service_account_json_path = some (codes "key.json");
  twilio_account_sid = some (codes "AC1");
  twilio_auth_token = some (codes "t");
  twilio_from_number = some (codes "+3312345");
}

abbrev caller : Client
caller = record {
  id = 1;
  phone_number = codes "+33600";
  full_name = none;
  email = none;
  notes = none;
}

abbrev row : Appointment
row = record {
  id = 2;
  client_id = 1;
  call_id = none;
  starts_at = 100;
  ends_at = 200;
  status = AppointmentStatus.confirmed;
  calendar_event_id = some (codes "ev-0");
  notes = none;
}

abbrev world : World
world = record {
  db = record {
    clients = caller ∷ [];
    appointments = row ∷ [];
    calls = [];
    transcripts = [];
    next_id = 3;
  };
  calendar_log = [];
  outbox = [];
}

abbrev payload : AppointmentCreateRequest
payload = record { phone_number = codes "+33600"; starts_at = 300; ends_at = 400; notes = none }

create_appointment-Tells_example :
    Tells payload world
      (create_appointment (get_booking_service packages clients settings) payload world)
create_appointment-Tells_example =
    create_appointment-Tells payload world packages clients settings sample_http
      sample_http-IsRetryer sample_http-RaisesOnlyHttpErrors refl refl

abbrev silent : Service
silent =
    service_of clients settings (record { calendar_id = []; service_account_json_path = [] }) none
      none

confirms : (c : Client) (a : Appointment) (w : World) → (send_confirmation silent c a w).0 ≡ ok tt
unfolding send_confirmation
confirms c a w = refl

accepting : IsAccepting silent
accepting = record {
  creates = λ log start end summary. (codes "ev-1", refl);
  cancels = λ log i. refl;
  reschedules = λ log i start end. refl;
  confirms = confirms;
}

lasts : 100 < 200
lasts = omega arith

row-IsBooked : IsBooked row
row-IsBooked = (lasts, codes "ev-0", refl)

-- an overlapping booking, a cancellation, the booking again, and a move
abbrev commands : List Command
commands =
    book caller 150 250 none none ∷ cancel 2 ∷ book caller 150 250 none none ∷ move 3 500 600 ∷ []

run_commands_refine_example :
    ((run_commands (perform silent) commands world).0
      ≡ (run_commands step commands (schedule_of world)).0)
    × (schedule_of (run_commands (perform silent) commands world).1
        ≡ (run_commands step commands (schedule_of world)).1)
run_commands_refine_example = run_commands_refine silent commands world accepting (row-IsBooked, tt)

abbrev probes : Probes
probes = record {
  select_one = ok tt;
  redis_client = ok tt;
  ping = err (Error.other (codes "ConnectionError"));
  livekit_url = some (codes "wss://livekit");
  parse_url = λ url. ok (record { hostname = some url; port = ok none; is_https = true });
  open_connection = λ host port. ok tt;
  print_error = λ e. codes "unreachable";
}

health-Reports_example :
    Reports probes probes.redis_client (check_livekit probes probes.livekit_url) (health probes)
health-Reports_example = health-Reports probes
