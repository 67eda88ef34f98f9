-- ===== src/Booking/Service/Actions.antt =====
-- The methods of `BookingService` (src/openvoice/booking/service.py) as stateful code that may raise.
use open_voice.Base.{
  ℕ, ◌&&◌, Option, none, some, List, [], ◌∷◌, ◌++◌, ◌==◌, if◌then◌else◌, is_empty,
}
use open_voice.Base.Text.{Text, codes}
use open_voice.Base.Time.{ℤ, minutes, days, add_time}
use open_voice.Base.Result.{Error, Result, ok, err, Exec, pure, raise, gets, lift, ◌>>=◌, ◌>>◌}
use open_voice.Db.{
  Appointment, AppointmentStatus, Client, Db, insert_appointment, update_appointment,
}
use open_voice.Booking.{TimeSlot}
use open_voice.Booking.Slots.{duration_or_default, propose}
use open_voice.Booking.Service.{
  Service, World, list_busy_slots, create_event, cancel_event, reschedule_event, Message,
  display_name, find_overlapping,
}

abbrev pub ignore_notification_error : Result (Unit {0}) → Result (Unit {0})
ignore_notification_error (ok _) = ok tt
ignore_notification_error (err (Error.notification_error why)) = ok tt
ignore_notification_error (err e) = err e

module _ (s : Service) where
  ask_busy : ℕ → ℕ → Exec World (List TimeSlot)
  ask_busy start end w = (
    s.calendar.on_list w.calendar_log start end,
    record w { calendar_log = w.calendar_log ++ list_busy_slots start end ∷ [] },
  )

  ask_create : ℕ → ℕ → Text → Exec World Text
  ask_create start end summary w = (
    s.calendar.on_create w.calendar_log start end summary,
    record w { calendar_log = w.calendar_log ++ create_event start end summary ∷ [] },
  )

  ask_cancel : Text → Exec World (Unit {0})
  ask_cancel event_id w = (
    s.calendar.on_cancel w.calendar_log event_id,
    record w { calendar_log = w.calendar_log ++ cancel_event event_id ∷ [] },
  )

  ask_reschedule : Text → ℕ → ℕ → Exec World (Unit {0})
  ask_reschedule event_id start end w = (
    s.calendar.on_reschedule w.calendar_log event_id start end,
    record w { calendar_log = w.calendar_log ++ reschedule_event event_id start end ∷ [] },
  )

  -- a transaction: what it raises leaves the database alone
  abbrev pub commit : (Db → Result Db) → Exec World (Unit {0})
  commit change w = elim (change w.db) [
    | ok db ↦ (ok tt, record w { db = db })
    | err e ↦ (err e, w)
  ]

  unfoldable pub find_available_slots : ℕ → ℤ → Option ℤ → ℕ → Exec World (List TimeSlot)
  unfolding ask_busy
  find_available_slots search_from search_days duration_minutes max_results = do
    duration ←
        lift (minutes (duration_or_default duration_minutes s.hours.default_duration_minutes))
    window ← lift (days search_days)
    search_until ← lift (add_time search_from window)
    busy ← ask_busy search_from search_until
    lift (propose s.hours duration busy search_from search_until max_results)

  -- `try: await send(...) except NotificationError`
  unfoldable pub try_send :
      (List Message → Message → Result (Unit {0})) → Message → Exec World (Unit {0})
  try_send send m w =
      (ignore_notification_error (send w.outbox m), record w { outbox = w.outbox ++ m ∷ [] })

  abbrev pub confirmation : Appointment → Text
  confirmation a =
      codes "Your appointment is confirmed for " ++ (s.strftime a.starts_at ++ codes ".")

  abbrev pub sms_confirmation :
      Option (List Message → Message → Result (Unit {0})) → Text → Text → Exec World (Unit {0})
  sms_confirmation none to body = pure tt
  sms_confirmation (some send) to body =
      if is_empty to then pure tt else try_send send (Message.sms to body)

  abbrev pub email_confirmation :
      Option (List Message → Message → Result (Unit {0}))
      → Option Text
      → Text
      → Exec World (Unit {0})
  email_confirmation none to body = pure tt
  email_confirmation (some send) none body = pure tt
  email_confirmation (some send) (some to) body =
      if is_empty to
      then pure tt
      else try_send send (Message.email to (codes "Appointment confirmed") body)

  -- `_send_confirmation`
  unfoldable pub send_confirmation : Client → Appointment → Exec World (Unit {0})
  send_confirmation c a = do
    sms_confirmation s.sms c.phone_number (confirmation a)
    email_confirmation s.email c.email (confirmation a)

  abbrev pub conflict : Appointment → Error
  conflict a = Error.booking_error (
      codes "This client already has an appointment from "
      ++ (s.isoformat a.starts_at
          ++ (codes " to "
              ++ (s.isoformat a.ends_at ++ codes " that overlaps the requested time."))))

  -- the row that `book_appointment` adds
  abbrev pub booked : ℕ → Client → ℕ → ℕ → Option ℕ → Option Text → Text → Appointment
  booked id c start end call_id notes event_id = record {
    id = id;
    client_id = c.id;
    call_id = call_id;
    starts_at = start;
    ends_at = end;
    status = AppointmentStatus.confirmed;
    calendar_event_id = some event_id;
    notes = notes;
  }

  -- the part of `book_appointment` that finds no overlap
  unfoldable pub book_new : Client → ℕ → ℕ → Option ℕ → Option Text → Exec World Appointment
  unfolding ask_create
  book_new c start end call_id notes = do
    event_id ← ask_create start end (codes "Appointment: " ++ display_name c)
    id ← gets (λ (w : World). w.db.next_id)
    commit (insert_appointment (booked id c start end call_id notes event_id))
    send_confirmation c (booked id c start end call_id notes event_id)
    pure (booked id c start end call_id notes event_id)

  -- the part that has found one
  abbrev pub book_existing : Appointment → ℕ → ℕ → Exec World Appointment
  book_existing a start end =
      if a.starts_at == start && a.ends_at == end then pure a else raise (conflict a)

  unfoldable pub book_appointment : Client → ℕ → ℕ → Option ℕ → Option Text → Exec World Appointment
  unfolding book_new
  book_appointment c start end call_id notes = do
    existing ← gets (λ (w : World). find_overlapping c.id start end w.db.appointments)
    elim existing [ none ↦ book_new c start end call_id notes | some a ↦ book_existing a start end ]

  unfoldable pub cancel_appointment : Appointment → Exec World (Unit {0})
  unfolding ask_cancel
  cancel_appointment a = do
    elim a.calendar_event_id [ none ↦ pure tt | some event_id ↦ ask_cancel event_id ]
    commit (update_appointment (record a { status = AppointmentStatus.cancelled }))

  abbrev pub moved : Appointment → ℕ → ℕ → Appointment
  moved a new_start new_end = record a {
    starts_at = new_start;
    ends_at = new_end;
    status = AppointmentStatus.rescheduled;
  }

  -- the part of `reschedule_appointment` behind its guard
  unfoldable pub reschedule_event_of : Text → Appointment → ℕ → ℕ → Exec World Appointment
  unfolding ask_reschedule
  reschedule_event_of event_id a new_start new_end = do
    ask_reschedule event_id new_start new_end
    commit (update_appointment (moved a new_start new_end))
    pure (moved a new_start new_end)

  unfoldable pub reschedule_appointment : Appointment → ℕ → ℕ → Exec World Appointment
  unfolding reschedule_event_of
  reschedule_appointment a new_start new_end = elim a.calendar_event_id [
    | none ↦
        raise
          (Error.booking_error (codes "Cannot reschedule an appointment with no calendar event"))
    | some event_id ↦ reschedule_event_of event_id a new_start new_end
  ]
