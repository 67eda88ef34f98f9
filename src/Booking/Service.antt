-- ===== src/Booking/Service.antt =====
-- `BookingService` of src/openvoice/booking/service.py: the methods that read or change the calendar, the
-- database and what is sent. The calendar (src/openvoice/calendar/base.py) and the senders of
-- messages (src/openvoice/notifications/base.py) are abstract classes there and parameters here: each
-- answers as it likes, by what it was asked before.
pub mod Actions
pub mod Bookings
pub mod Returned
pub mod Upcoming
pub mod Cancellations
pub mod Moves
pub mod Overlaps
pub mod Confirmation
use open_voice.Base.{
  ℕ, suc, ◌+◌, Bool, true, false, not, ◌&&◌, Option, none, some, List, [], ◌∷◌, ◌++◌, ltb, leb,
  ◌==◌, if◌then◌else◌, keep, is_empty,
}
use open_voice.Base.Text.{Text, codes}
use open_voice.Base.Time.{ℤ, pos, minutes, days, add_time}
use open_voice.Base.Result.{
  Error, Result, ok, err, Exec, pure, raise, gets, lift, modify, ◌>>=◌, ◌>>◌,
}
use open_voice.Db.{
  Appointment, AppointmentStatus, Client, Db, is_cancelled, insert_appointment, update_appointment,
}
use open_voice.Booking.{TimeSlot, Hours}
use open_voice.Booking.Slots.{duration_or_default, propose}

pub data CalendarCall : Type 0 where
  list_busy_slots : ℕ → ℕ → CalendarCall
  create_event : ℕ → ℕ → Text → CalendarCall
  cancel_event : Text → CalendarCall
  reschedule_event : Text → ℕ → ℕ → CalendarCall

-- `BaseCalendarProvider`. Of a created event only its id is used, of a moved one nothing.
pub record Calendar : Type 0 where
  pub on_list : List CalendarCall → ℕ → ℕ → Result (List TimeSlot)
  pub on_create : List CalendarCall → ℕ → ℕ → Text → Result Text
  pub on_cancel : List CalendarCall → Text → Result (Unit {0})
  pub on_reschedule : List CalendarCall → Text → ℕ → ℕ → Result (Unit {0})

pub data Message : Type 0 where
  sms : Text → Text → Message
  email : Text → Text → Text → Message

-- What a `BookingService` is built with, and the formats of `datetime`.
pub record Service : Type 0 where
  pub calendar : Calendar
  pub sms : Option (List Message → Message → Result (Unit {0}))
  pub email : Option (List Message → Message → Result (Unit {0}))
  pub hours : Hours
  -- `strftime("%A %B %d at %H:%M")` and `isoformat()`
  pub strftime : ℕ → Text
  pub isoformat : ℕ → Text

-- The database, the calls of the calendar and the messages handed to a sender, the latest last.
pub record World : Type 0 where
  pub db : Db
  pub calendar_log : List CalendarCall
  pub outbox : List Message

-- `full_name or phone_number`
abbrev pub display_name : Client → Text
display_name c = elim c.full_name [
  | none ↦ c.phone_number
  | some n ↦ if is_empty n then c.phone_number else n
]

abbrev pub is_active_for : ℕ → Appointment → Bool
is_active_for client_id a = a.client_id == client_id && not (is_cancelled a.status)

abbrev pub overlaps : ℕ → ℕ → Appointment → Bool
overlaps start end a = ltb a.starts_at end && ltb start a.ends_at

-- `_find_overlapping_appointment`: `.first()` of the rows that the query selects
unfoldable pub find_overlapping : ℕ → ℕ → ℕ → List Appointment → Option Appointment
find_overlapping client_id start end [] = none
find_overlapping client_id start end (a ∷ rows) =
    if is_active_for client_id a && overlaps start end a
    then some a
    else find_overlapping client_id start end rows

abbrev pub insert_by_start : Appointment → List Appointment → List Appointment
insert_by_start a [] = a ∷ []
insert_by_start a (b ∷ rows) =
    if leb a.starts_at b.starts_at then a ∷ b ∷ rows else b ∷ insert_by_start a rows

-- `order_by(Appointment.starts_at)`
abbrev pub order_by_start : List Appointment → List Appointment
order_by_start [] = []
order_by_start (a ∷ rows) = insert_by_start a (order_by_start rows)

-- `list_upcoming_appointments`
unfoldable pub list_upcoming : ℕ → ℕ → List Appointment → List Appointment
list_upcoming client_id now rows =
    order_by_start (keep (λ a. is_active_for client_id a && leb now a.starts_at) rows)
