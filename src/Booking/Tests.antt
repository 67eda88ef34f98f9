-- ===== src/Booking/Tests.antt =====
-- Instances of the theorems about slots and appointments, on a calendar that accepts everything.
use open_voice.Base.{
  inl, inr, All, ◌++◌, ℕ, ◌+◌, ◌≡◌, ◌<◌, ◌≤◌, refl, none, some, List, [], ◌∷◌, arith, keep, take,
}
use mathlib.Core.List.{Perm}
use open_voice.Base.Text.{codes}
use open_voice.Base.Time.{pos, minute, day_length, datetime_max}
use open_voice.Base.Result.{Error, ok, err}
use open_voice.Db.{Appointment, AppointmentStatus, Client}
use open_voice.Booking.{TimeSlot, Hours}
use open_voice.Booking.Slots.{propose}
use open_voice.Booking.Slots.Grid.{is_free}
use open_voice.Booking.Slots.Days.{AreHours, days_slots}
use open_voice.Booking.Slots.Proposed.{first_number, days_open, propose-first_free}
use open_voice.Booking.Service.{Calendar, Service, World, find_overlapping, list_upcoming}
use open_voice.Booking.Service.Actions.{
  book_appointment, cancel_appointment, reschedule_appointment,
}
use open_voice.Booking.Service.Overlaps.{NoClash}
use open_voice.Booking.Service.Bookings.{
  Books, book_appointment-Books, book_appointment-NoClash, book_appointment_again,
}
use open_voice.Booking.Service.Cancellations.{Cancels, cancel_appointment-Cancels}
use open_voice.Booking.Service.Moves.{
  Moves, reschedule_appointment-Moves, reschedule_appointment_over,
}
use open_voice.Booking.Service.Upcoming.{SoonestFirst, IsUpcoming, list_upcoming-ordered}

abbrev calendar : Calendar
calendar = record {
  on_list = λ log start end. ok [];
  on_create = λ log start end summary. ok (codes "ev-1");
  on_cancel = λ log event_id. ok tt;
  on_reschedule = λ log event_id start end. ok tt;
}

abbrev hours : Hours
hours = record { business_hours_start = 9; business_hours_end = 17; default_duration_minutes = 30 }

abbrev service : Service
service = record {
  calendar = calendar;
  sms = some (λ sent m. err (Error.notification_error (codes "unreachable")));
  email = none;
  hours = hours;
  strftime = λ t. codes "then";
  isoformat = λ t. codes "then";
}

abbrev caller : Client
caller = record {
  id = 1;
  phone_number = codes "+15550100";
  full_name = none;
  email = none;
  notes = none;
}

abbrev row : ℕ → ℕ → ℕ → Appointment
row id start end = record {
  id = id;
  client_id = 1;
  call_id = none;
  starts_at = start;
  ends_at = end;
  status = AppointmentStatus.confirmed;
  calendar_event_id = some (codes "ev-0");
  notes = none;
}

abbrev world : List Appointment → World
world rows = record {
  db = record {
    clients = caller ∷ [];
    appointments = rows;
    calls = [];
    transcripts = [];
    next_id = 9;
  };
  calendar_log = [];
  outbox = [];
}

abbrev two_rows : World
two_rows = world (row 2 100 200 ∷ row 3 300 400 ∷ [])

two_rows-NoClash : NoClash two_rows.db.appointments
two_rows-NoClash = ((refl, tt), (tt, tt))

book_appointment-Books_example :
    Books service caller 500 600 none none two_rows
      (book_appointment service caller 500 600 none none two_rows)
book_appointment-Books_example = book_appointment-Books service caller 500 600 none none two_rows

book_appointment-NoClash_example :
    NoClash (book_appointment service caller 500 600 none none two_rows).1.db.appointments
book_appointment-NoClash_example =
    book_appointment-NoClash service caller 500 600 none none two_rows two_rows-NoClash

repeated_row : (book_appointment service caller 100 200 none none two_rows).0 ≡ ok (row 2 100 200)
unfolding book_appointment find_overlapping
repeated_row = refl

book_appointment_again_example :
    let after = (book_appointment service caller 100 200 none none two_rows).1 in
    book_appointment service caller 100 200 none none after ≡ (ok (row 2 100 200), after)
book_appointment_again_example =
    book_appointment_again service caller 100 200 none none two_rows (row 2 100 200) repeated_row

lasts : 100 < 200
lasts = omega arith

cancel_appointment-Cancels_example :
    Cancels service (row 2 100 200) two_rows (cancel_appointment service (row 2 100 200) two_rows)
cancel_appointment-Cancels_example =
    cancel_appointment-Cancels service (row 2 100 200) two_rows lasts

reschedule_appointment-Moves_example :
    Moves service
      (row 2 100 200)
      700
      800
      two_rows
      (reschedule_appointment service (row 2 100 200) 700 800 two_rows)
reschedule_appointment-Moves_example =
    reschedule_appointment-Moves service (row 2 100 200) 700 800 two_rows

later : 300 < 400
later = omega arith

reschedule_appointment_over_example :
    ¬ NoClash (reschedule_appointment service (row 2 100 200) 300 400 two_rows).1.db.appointments
reschedule_appointment_over_example =
    reschedule_appointment_over service (row 2 100 200) (row 3 300 400) (codes "ev-0") two_rows
      (inl refl) (inr (inl refl)) (omega arith) refl refl refl refl later

-- the second row is cancelled
abbrev table : List Appointment
table =
    row 3 300 400
    ∷ record (row 4 350 360) { status = AppointmentStatus.cancelled }
    ∷ row 2 200 250
    ∷ []

list_upcoming-ordered_example :
    SoonestFirst (list_upcoming 1 150 table)
    × All (IsUpcoming 1 150) (list_upcoming 1 150 table)
    × ((others : List Appointment) × All (λ a. ¬ IsUpcoming 1 150 a) others
        × Perm (list_upcoming 1 150 table ++ others) table)
list_upcoming-ordered_example = list_upcoming-ordered 1 150 table

nine_to_five : AreHours hours
nine_to_five = record { start_lt = omega arith; end_lt = omega arith }

abbrev from_day : ℕ
from_day = 63763200000000000

abbrev until_day : ℕ
until_day = 63763286400000000

-- half of the first morning is taken
abbrev busy : List TimeSlot
busy = record { start = 63763232400000000; end = 63763239600000000 } ∷ []

abbrev half_hour : ℕ
half_hour = 1800000000

long : minute ≤ half_hour
long = omega arith

ahead : from_day ≤ until_day
ahead = omega arith

fits : until_day + day_length + half_hour ≤ datetime_max
fits = omega arith

propose-first_free_example :
    propose hours (pos half_hour) busy from_day until_day 5
    ≡ ok (
        take 5 (
          keep (is_free busy) (
            days_slots hours half_hour
              (first_number hours from_day)
              (days_open hours until_day (first_number hours from_day)))))
propose-first_free_example =
    propose-first_free hours nine_to_five half_hour long busy from_day until_day 5 ahead fits
