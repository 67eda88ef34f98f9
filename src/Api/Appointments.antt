-- ===== src/Api/Appointments.antt =====
-- src/openvoice/api/routers/appointments.py.
use open_voice.Base.{ℕ, zero, Option, none, some, List}
use open_voice.Base.Text.{Text, codes}
use open_voice.Base.Time.{ℤ, pos}
use open_voice.Base.Result.{Error, Result, err, Exec, ◌>>=◌}
use open_voice.Db.{Appointment, find_appointment}
use open_voice.Config.{Settings}
use open_voice.Crm.{get_or_create_client}
use open_voice.Booking.{TimeSlot}
use open_voice.Booking.Service.{Service, World}
use open_voice.Booking.Service.Actions.{
  find_available_slots, book_appointment, cancel_appointment, reschedule_appointment,
}
use open_voice.Api.{Response, failed, Handler, respond, run, with_service, on_db}

-- `search_days or settings.booking_search_days_ahead`
abbrev pub days_or_setting : Option ℤ → Settings → ℤ
days_or_setting none settings = pos settings.booking_search_days_ahead
days_or_setting (some (pos zero)) settings = pos settings.booking_search_days_ahead
days_or_setting (some n) settings = n

-- `available_slots` at the instant `now`; `find_available_slots` gives 5 slots at most by default
unfoldable pub available_slots :
    Result Service → Settings → ℕ → Option ℤ → Option ℤ → Handler (List TimeSlot)
available_slots service settings now duration_minutes search_days = with_service service λ s.
    run 200 (find_available_slots s now (days_or_setting search_days settings) duration_minutes 5)

-- `AppointmentCreateRequest`
pub record AppointmentCreateRequest : Type 0 where
  pub phone_number : Text
  pub starts_at : ℕ
  pub ends_at : ℕ
  pub notes : Option Text

-- the body of `create_appointment`
unfoldable pub book_for_phone : Service → AppointmentCreateRequest → Exec World Appointment
book_for_phone s payload = do
  client ← on_db (get_or_create_client payload.phone_number)
  book_appointment s client payload.starts_at payload.ends_at none payload.notes

unfoldable pub create_appointment : Result Service → AppointmentCreateRequest → Handler Appointment
create_appointment service payload = with_service service λ s. run 201 (book_for_phone s payload)

abbrev pub not_found : {A : Type 0} → Handler A
not_found w = (failed 404 (codes "Appointment not found"), w)

abbrev pub cancel_row : Service → Option Appointment → Handler (Unit {0})
cancel_row s none = not_found
cancel_row s (some a) = run 204 (cancel_appointment s a)

-- `cancel_appointment`
unfoldable pub delete_appointment : Result Service → ℕ → Handler (Unit {0})
delete_appointment service appointment_id =
    with_service service λ s w. cancel_row s (find_appointment appointment_id w.db.appointments) w

-- `AppointmentRescheduleRequest`
pub record AppointmentRescheduleRequest : Type 0 where
  pub starts_at : ℕ
  pub ends_at : ℕ

-- `except BookingError`: the handler answers it itself
abbrev pub respond_booking : Result Appointment → Response Appointment
respond_booking (err (Error.booking_error why)) = failed 409 why
respond_booking r = respond 200 r

abbrev pub move_row :
    Service → Option Appointment → AppointmentRescheduleRequest → Handler Appointment
move_row s none payload w = not_found w
move_row s (some a) payload w =
    let (r, w') = reschedule_appointment s a payload.starts_at payload.ends_at w in
    (respond_booking r, w')

-- `reschedule_appointment`
unfoldable pub patch_appointment :
    Result Service → ℕ → AppointmentRescheduleRequest → Handler Appointment
patch_appointment service appointment_id payload =
    with_service service
      λ s w. move_row s (find_appointment appointment_id w.db.appointments) payload w
