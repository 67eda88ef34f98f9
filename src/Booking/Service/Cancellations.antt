-- ===== src/Booking/Service/Cancellations.antt =====
-- `cancel_appointment` of src/openvoice/booking/service.py on every branch.
use open_voice.Base.{
  ◌≡◌, ◌<◌, refl, sym, subst, ◌⊎◌, inl, inr, none, some, List, [], ◌∷◌, ◌++◌, arith, Option-cases,
}
use open_voice.Base.Text.{Text}
use open_voice.Base.Result.{Error, Result, ok, err}
use open_voice.Db.{Appointment, AppointmentStatus, update_appointment, replace_row}
use open_voice.Booking.Service.{Service, World, cancel_event}
use open_voice.Booking.Service.Actions.{cancel_appointment}
use open_voice.Booking.Service.Overlaps.{NoClash, NoClash-replace_row}

abbrev pub with_rows : World → List Appointment → World
with_rows v rows = record v { db = record v.db { appointments = rows } }

module _ (s : Service) (a : Appointment) (w : World) where
  abbrev pub cancelled_row : Appointment
  cancelled_row = record a { status = AppointmentStatus.cancelled }

  -- the world after the calendar was asked to cancel
  abbrev pub asked_to_cancel : Text → World
  asked_to_cancel event_id = record w {
    calendar_log = w.calendar_log ++ cancel_event event_id ∷ [];
  }

  -- What a cancellation may do.
  pub data Cancels : Result (Unit {0}) × World → Type 0 where
    -- there is no event: only the row changes
    row_only :
        a.calendar_event_id ≡ none
        → a.starts_at < a.ends_at
        → Cancels (ok tt, with_rows w (replace_row cancelled_row w.db.appointments))
    -- the calendar refuses: the row stays as it is
    kept :
        (event_id : Text) (e : Error)
        → a.calendar_event_id ≡ some event_id
        → s.calendar.on_cancel w.calendar_log event_id ≡ err e
        → Cancels (err e, asked_to_cancel event_id)
    both :
        (event_id : Text)
        → a.calendar_event_id ≡ some event_id
        → s.calendar.on_cancel w.calendar_log event_id ≡ ok tt
        → a.starts_at < a.ends_at
        → Cancels (
          ok tt,
          with_rows (asked_to_cancel event_id) (replace_row cancelled_row w.db.appointments),
        )

  cancel_no_event_lem :
      a.calendar_event_id ≡ none
      → a.starts_at < a.ends_at
      → cancel_appointment s a w
        ≡ (ok tt, with_rows w (replace_row cancelled_row w.db.appointments))
  unfolding cancel_appointment update_appointment
  cancel_no_event_lem h lt = ground arith

  cancel_kept_lem :
      (event_id : Text) (e : Error)
      → a.calendar_event_id ≡ some event_id
      → s.calendar.on_cancel w.calendar_log event_id ≡ err e
      → cancel_appointment s a w ≡ (err e, asked_to_cancel event_id)
  unfolding cancel_appointment
  cancel_kept_lem event_id e h k = ground arith

  cancel_both_lem :
      (event_id : Text)
      → a.calendar_event_id ≡ some event_id
      → s.calendar.on_cancel w.calendar_log event_id ≡ ok tt
      → a.starts_at < a.ends_at
      → cancel_appointment s a w ≡ (
        ok tt,
        with_rows (asked_to_cancel event_id) (replace_row cancelled_row w.db.appointments),
      )
  unfolding cancel_appointment update_appointment
  cancel_both_lem event_id h k lt = ground arith

  cancel_event-Cancels :
      (event_id : Text) (r : Result (Unit {0}))
      → a.calendar_event_id ≡ some event_id
      → s.calendar.on_cancel w.calendar_log event_id ≡ r
      → a.starts_at < a.ends_at
      → Cancels (cancel_appointment s a w)
  cancel_event-Cancels event_id (err e) h k lt =
      subst Cancels (sym (cancel_kept_lem event_id e h k)) (kept event_id e h k)
  cancel_event-Cancels event_id (ok tt) h k lt =
      subst Cancels (sym (cancel_both_lem event_id h k lt)) (both event_id h k lt)

  -- `cancel_appointment` of an appointment that ends after it starts, which the database holds of
  -- every row: it changes the row's status and nothing else of the database, after the calendar has
  -- cancelled the event if there is one; what the calendar raises comes out with the row unchanged.
  pub cancel_appointment-Cancels : a.starts_at < a.ends_at → Cancels (cancel_appointment s a w)
  cancel_appointment-Cancels lt = elim (Option-cases a.calendar_event_id) [
    | inl none' ↦ subst Cancels (sym (cancel_no_event_lem none' lt)) (row_only none' lt)
    | inr (event_id, h) ↦ cancel_event-Cancels event_id _ h refl lt
  ]

  -- A cancellation leaves no two active appointments of a client that overlap, if there were none.
  pub cancel_appointment-NoClash :
      a.starts_at < a.ends_at
      → NoClash w.db.appointments
      → NoClash (cancel_appointment s a w).1.db.appointments
  cancel_appointment-NoClash lt n = after _ (cancel_appointment-Cancels lt)
    where
      after : (p : Result (Unit {0}) × World) → Cancels p → NoClash p.1.db.appointments
      after _ (row_only h l) = NoClash-replace_row cancelled_row w.db.appointments refl n
      after _ (kept i e h k) = n
      after _ (both i h k l) = NoClash-replace_row cancelled_row w.db.appointments refl n

-- the rows after a cancellation, whether the database takes it or not
pub cancel_appointment_rows :
    (s : Service) (a : Appointment) (w : World)
    → ((cancel_appointment s a w).1.db.appointments ≡ w.db.appointments)
      ⊎ ((cancel_appointment s a w).1.db.appointments
          ≡ replace_row (cancelled_row s a w) w.db.appointments)
unfolding cancel_appointment update_appointment
cancel_appointment_rows s a w = ground arith
