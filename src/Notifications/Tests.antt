-- ===== src/Notifications/Tests.antt =====
-- Instances of the theorems about the messages.
use open_voice.Base.{ℕ, zero, suc, ◌≡◌, ◌<◌, refl, true, none, some, [], ◌∷◌, arith}
use open_voice.Base.Text.{Text, codes}
use open_voice.Base.Result.{Error, ok, err}
use open_voice.Db.{Client}
use open_voice.Booking.Service.{Calendar, Service, World, find_overlapping}
use open_voice.Booking.Service.Actions.{book_appointment}
use open_voice.Config.Factories.{TwilioConfig}
use open_voice.Notifications.{is_retried, attempt, sms_request, send_sms, twilio_sender}
use open_voice.Notifications.Delivery.{Delivers, send_sms-Delivers, send_sms_persists}
use open_voice.Notifications.Atomic.{book_appointment_atomic}
use open_voice.Notifications.Sample.{
  sample_http, sample_http-IsRetryer, sample_http-RaisesOnlyHttpErrors,
}

abbrev config : TwilioConfig
config = record {
  account_sid = codes "AC1";
  auth_token = codes "t";
  from_number = codes "+3312345";
  timeout = 10000000;
  max_retries = 3;
}

abbrev to : Text
to = codes "+33600"

abbrev body : Text
body = codes "See you then."

send_sms-Delivers_example :
    Delivers sample_http sample_http-IsRetryer
      (sms_request sample_http config to body)
      []
      3
      (codes "Twilio SMS send failed: ")
      (send_sms sample_http config to body [])
send_sms-Delivers_example = send_sms-Delivers sample_http sample_http-IsRetryer config to body []

one : 1 < 3
one = omega arith

first_fails :
    (j : ℕ)
    → j < 1
    → is_retried (attempt sample_http (sms_request sample_http config to body) [] j) ≡ true
unfolding attempt
first_fails zero lt = refl
first_fails (suc j) lt = absurd (omega (arith, lt))

send_sms_persists_example : send_sms sample_http config to body [] ≡ ok tt
send_sms_persists_example =
    send_sms_persists sample_http sample_http-IsRetryer config to body [] 1 one first_fails
      (201, [], (refl, refl, refl))

abbrev calendar : Calendar
calendar = record {
  on_list = λ log start end. ok [];
  on_create = λ log start end summary. err (Error.calendar_error (codes "unreachable"));
  on_cancel = λ log event_id. ok tt;
  on_reschedule = λ log event_id start end. ok tt;
}

abbrev service : Service
service = record {
  calendar = calendar;
  sms = some (twilio_sender sample_http config);
  email = none;
  hours = record {
    business_hours_start = 9;
    business_hours_end = 17;
    default_duration_minutes = 30;
  };
  strftime = λ t. codes "then";
  isoformat = λ t. codes "then";
}

abbrev caller : Client
caller = record { id = 1; phone_number = to; full_name = none; email = none; notes = none }

abbrev world : World
world = record {
  db = record {
    clients = caller ∷ [];
    appointments = [];
    calls = [];
    transcripts = [];
    next_id = 2;
  };
  calendar_log = [];
  outbox = [];
}

raises :
    (book_appointment service caller 100 200 none none world).0
    ≡ err (Error.calendar_error (codes "unreachable"))
unfolding book_appointment find_overlapping
raises = refl

book_appointment_atomic_example :
    (book_appointment service caller 100 200 none none world).1.db.appointments ≡ []
book_appointment_atomic_example =
    book_appointment_atomic sample_http sample_http-IsRetryer sample_http-RaisesOnlyHttpErrors
      service (some config) none caller 100 200 none none world
      (Error.calendar_error (codes "unreachable")) refl refl raises
