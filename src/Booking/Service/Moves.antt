-- ===== src/Booking/Service/Moves.antt =====
-- `reschedule_appointment` of src/openvoice/booking/service.py on every branch.
use open_voice.Base.{
  ℕ, ◌≡◌, ◌<◌, ◌≤◌, refl, sym, ap, subst, inl, inr, false, none, some, [], ◌∷◌, ◌++◌, ◌≢◌, ◌⊎◌,
  arith, Bool-cases, Option-cases, ltb,
}
use open_voice.Base.Text.{Text, codes}
use open_voice.Base.Result.{Error, Result, ok, err}
use open_voice.Db.{Appointment, is_cancelled, update_appointment, replace_row}
use open_voice.Booking.Service.{Service, World, reschedule_event}
use open_voice.Booking.Service.Actions.{moved, reschedule_event_of, reschedule_appointment}
use open_voice.Booking.Service.Overlaps.{
  Compatible, NoClash, Among, NoClash-Among, replaced-Among, kept-Among,
}
use open_voice.Booking.Service.Cancellations.{with_rows}

module _ (s : Service) (a : Appointment) (new_start new_end : ℕ) (w : World) where
  abbrev pub asked_to_move : Text → World
  asked_to_move event_id = record w {
    calendar_log = w.calendar_log ++ reschedule_event event_id new_start new_end ∷ [];
  }

  abbrev pub moving : Text → Result (Unit {0})
  moving event_id = s.calendar.on_reschedule w.calendar_log event_id new_start new_end

  -- What a move may do.
  pub data Moves : Result Appointment × World → Type 0 where
    no_event :
        a.calendar_event_id ≡ none
        → Moves (
          err (
              Error.booking_error
                (codes "Cannot reschedule an appointment with no calendar event")),
          w,
        )
    not_moved :
        (event_id : Text) (e : Error)
        → a.calendar_event_id ≡ some event_id
        → moving event_id ≡ err e
        → Moves (err e, asked_to_move event_id)
    -- the database refuses after the event has moved
    not_stored :
        (event_id : Text)
        → a.calendar_event_id ≡ some event_id
        → moving event_id ≡ ok tt
        → new_end ≤ new_start
        → Moves (err Error.integrity_error, asked_to_move event_id)
    stored :
        (event_id : Text)
        → a.calendar_event_id ≡ some event_id
        → moving event_id ≡ ok tt
        → new_start < new_end
        → Moves (
          ok (moved s a new_start new_end),
          with_rows
              (asked_to_move event_id)
              (replace_row (moved s a new_start new_end) w.db.appointments),
        )

  no_event_lem :
      a.calendar_event_id ≡ none
      → reschedule_appointment s a new_start new_end w ≡ (
        err (Error.booking_error (codes "Cannot reschedule an appointment with no calendar event")),
        w,
      )
  unfolding reschedule_appointment
  no_event_lem h = ground arith

  not_moved_lem :
      (event_id : Text) (e : Error)
      → a.calendar_event_id ≡ some event_id
      → moving event_id ≡ err e
      → reschedule_appointment s a new_start new_end w ≡ (err e, asked_to_move event_id)
  unfolding reschedule_appointment reschedule_event_of
  not_moved_lem event_id e h k = ground arith

  unstored_lem :
      (event_id : Text)
      → a.calendar_event_id ≡ some event_id
      → moving event_id ≡ ok tt
      → new_end ≤ new_start
      → reschedule_appointment s a new_start new_end w
        ≡ (err Error.integrity_error, asked_to_move event_id)
  unfolding reschedule_appointment reschedule_event_of update_appointment
  unstored_lem event_id h k le = ground arith

  stored_lem :
      (event_id : Text)
      → a.calendar_event_id ≡ some event_id
      → moving event_id ≡ ok tt
      → new_start < new_end
      → reschedule_appointment s a new_start new_end w ≡ (
        ok (moved s a new_start new_end),
        with_rows
            (asked_to_move event_id)
            (replace_row (moved s a new_start new_end) w.db.appointments),
      )
  unfolding reschedule_appointment reschedule_event_of update_appointment
  stored_lem event_id h k lt = ground arith

  event-Moves :
      (event_id : Text) (r : Result (Unit {0}))
      → a.calendar_event_id ≡ some event_id
      → moving event_id ≡ r
      → Moves (reschedule_appointment s a new_start new_end w)
  event-Moves event_id (err e) h k =
      subst Moves (sym (not_moved_lem event_id e h k)) (not_moved event_id e h k)
  event-Moves event_id (ok tt) h k = elim (Bool-cases (ltb new_start new_end)) [
    | inl lt ↦
        subst Moves (sym (stored_lem event_id h k (ground arith)))
          (stored event_id h k (ground arith))
    | inr ge ↦
        subst Moves (sym (unstored_lem event_id h k (ground arith)))
          (not_stored event_id h k (ground arith))
  ]

  -- `reschedule_appointment` in any state of the world: without a calendar event it raises a
  -- `BookingError` and does nothing; what the calendar raises comes out with the row unchanged; for
  -- an end that is not after the start the database refuses the row after the event has moved;
  -- otherwise the row has the new times, whatever else the client has at that time.
  pub reschedule_appointment-Moves : Moves (reschedule_appointment s a new_start new_end w)
  reschedule_appointment-Moves = elim (Option-cases a.calendar_event_id) [
    | inl none' ↦ subst Moves (sym (no_event_lem none')) (no_event none')
    | inr (event_id, h) ↦ event-Moves event_id _ h refl
  ]

-- A move has no guard against double booking: moving a row of the table onto the times of another active row of
-- the same client, wherever the two stand, in a calendar that accepts, leaves two that overlap.
pub reschedule_appointment_over :
    (s : Service) (a b : Appointment) (event_id : Text) (w : World)
    → Among a w.db.appointments
    → Among b w.db.appointments
    → b.id ≢ a.id
    → a.calendar_event_id ≡ some event_id
    → s.calendar.on_reschedule w.calendar_log event_id b.starts_at b.ends_at ≡ ok tt
    → b.client_id ≡ a.client_id
    → is_cancelled b.status ≡ false
    → b.starts_at < b.ends_at
    → ¬ NoClash (reschedule_appointment s a b.starts_at b.ends_at w).1.db.appointments
reschedule_appointment_over s a b event_id w in_a in_b ne h k same active lt n = overlap (
    NoClash-Among new b (replace_row new w.db.appointments) n'
      (replaced-Among a new w.db.appointments refl in_a)
      (kept-Among b new w.db.appointments ne in_b))
  where
    new : Appointment
    new = moved s a b.starts_at b.ends_at

    n' : NoClash (replace_row new w.db.appointments)
    n' =
        subst NoClash
          (ap (λ (p : Result Appointment × World). p.1.db.appointments)
            (stored_lem s a b.starts_at b.ends_at w event_id h k lt))
          n

    not_compatible : Compatible new b → ⊥
    not_compatible e = ground arith

    overlap : (new ≡ b) ⊎ Compatible new b → ⊥
    overlap (inl e) = ne (sym (ap (λ (x : Appointment). x.id) e))
    overlap (inr e) = not_compatible e
