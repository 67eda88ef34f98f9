-- ===== src/Api/Slots/Tests.antt =====
-- An instance of the theorem about the available slots.
use open_voice.Base.{ℕ, ◌≡◌, ◌≤◌, refl, none, some, List, [], ◌∷◌, arith, length}
use open_voice.Base.Text.{Text, codes}
use open_voice.Base.Time.{pos}
use open_voice.Base.Result.{Error, Result, ok, err}
use open_voice.Config.{Settings, default_settings}
use open_voice.Config.Factories.{GoogleConfig}
use open_voice.Booking.{TimeSlot}
use open_voice.Booking.Slots.Days.{AreHours}
use open_voice.Booking.Service.{Service, World}
use open_voice.Google.{GoogleClient, google_calendar}
use open_voice.Google.Busy.{answer_of}
use open_voice.Services.{Clients, service_of}
use open_voice.Api.{replied}
use open_voice.Api.Appointments.{available_slots}
use open_voice.Api.Slots.{AreFree, with_google, available_slots-Free}

-- Instants are written by one code point each.
abbrev decode : Text → Result ℕ
decode (t ∷ []) = ok t
decode text = err Error.value_error

abbrev config : GoogleConfig
config = record { calendar_id = codes "primary"; service_account_json_path = codes "key.json" }

abbrev slots : List TimeSlot
slots =
    record { start = 63763232400000000; end = 63763239600000000 }
    ∷ record { start = 63763246800000000; end = 63763250400000000 }
    ∷ []

abbrev writer : GoogleClient
writer = record {
  freebusy_query = λ log body. err Error.runtime_error;
  insert_event = λ log id body. err Error.runtime_error;
  delete_event = λ log id event_id. ok tt;
  patch_event = λ log id event_id body. err Error.runtime_error;
  isoformat = λ t. t ∷ [];
  fromisoformat = decode;
  print_error = λ e. codes "unreachable";
}

abbrev client : GoogleClient
client = record writer { freebusy_query = λ log body. ok (answer_of writer config slots) }

abbrev settings : Settings
settings = default_settings (codes "0123456789abcdef") (codes "postgresql://db")

abbrev clients : Clients
clients = record {
  google = google_calendar client;
  twilio = λ config log m. ok tt;
  resend = λ config log m. ok tt;
  strftime = λ t. codes "then";
  isoformat = λ t. codes "then";
}

abbrev service : Service
service = service_of clients settings config none none

abbrev world : World
world = record {
  db = record { clients = []; appointments = []; calls = []; transcripts = []; next_id = 1 };
  calendar_log = [];
  outbox = [];
}

hours-AreHours : AreHours service.hours
hours-AreHours = record { start_lt = omega arith; end_lt = omega arith }

available_slots-Free_example :
    (found : List TimeSlot) × ((available_slots
        (ok (with_google client config service))
        settings
        63763200000000000
        (some (pos 60))
        (some (pos 1))
        world).0
      ≡ replied 200 found)
    × (length found ≤ 5)
    × AreFree service 60 63763200000000000 slots found
available_slots-Free_example =
    available_slots-Free client config service settings 63763200000000000 59 1 slots (some (pos 60))
      (some (pos 1)) world hours-AreHours (λ t. refl) refl refl (omega arith) refl
