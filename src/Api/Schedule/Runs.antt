-- ===== src/Api/Schedule/Runs.antt =====
-- Whole runs of the operations of src/openvoice/api refine runs on the abstract schedule.
use open_voice.Base.{
  ℕ, ◌≡◌, ◌≢◌, ◌<◌, ◌≤◌, refl, ap, ap₂, ◌∙◌, true, Option, none, some, List, [], ◌∷◌, arith, All,
}
use open_voice.Base.Result.{Error, Result, ok, err}
use open_voice.Db.{Appointment, find_appointment}
use open_voice.Booking.Service.{Service, World}
use open_voice.Booking.Service.Actions.{moved}
use open_voice.Booking.Service.Overlaps.{All-replace_row}
use open_voice.Booking.Service.Bookings.{book_appointment-Books}
use open_voice.Booking.Service.Cancellations.{
  Cancels, row_only, kept, both, cancelled_row, cancel_appointment-Cancels,
}
use open_voice.Booking.Service.Moves.{Moves, reschedule_appointment-Moves}
use open_voice.Services.{map_option}
use open_voice.Api.{respond}
use open_voice.Api.Appointments.{
  respond_booking, cancel_row, move_row, delete_appointment, patch_appointment,
}
use open_voice.Api.Schedule.{
  Entry, Schedule, Command, book, cancel, move, Outcome, settled, released, update_at, release,
  relocate, step, appointment_outcome, removal_outcome, perform, view, schedule_of, run_commands,
}
use open_voice.Api.Schedule.Refines.{
  IsBooked, IsAccepting, Simulates, simulated, entry_view, found_lem, update_view, book_step,
}

calendar_accepts : (r : Result (Unit {0})) (e : Error) → r ≡ ok tt → r ≡ err e → ⊥
calendar_accepts r e h k = cc

has_event : (a : Appointment) → IsBooked a → a.calendar_event_id ≢ none
has_event a (lt, i, h) k = cc

relocate_forwards :
    (e : Entry) (key start end : ℕ) (s : Schedule)
    → start < end
    → relocate (some e) key start end s ≡ (
      settled key,
      record s {
        entries =
            update_at key (λ e. record e { start = start; end = end; active = true }) s.entries;
      },
    )
relocate_forwards e key start end s lt = ground arith

relocate_backwards :
    (e : Entry) (key start end : ℕ) (s : Schedule)
    → end ≤ start
    → relocate (some e) key start end s ≡ (Outcome.invalid, s)
relocate_backwards e key start end s le = ground arith

module _ (s : Service) (accepting : IsAccepting s) (w : World)
    (all : All IsBooked w.db.appointments) where
  release_is :
      (key : ℕ) (found : Option Appointment)
      → find_appointment key w.db.appointments ≡ found
      → step (cancel key) (schedule_of w) ≡ release (map_option view found) key (schedule_of w)
  unfolding step
  release_is key found f =
      ap (λ x. release x key (schedule_of w))
        (entry_view key w.db.appointments ∙ ap (map_option view) f)

  relocate_is :
      (key start end : ℕ) (found : Option Appointment)
      → find_appointment key w.db.appointments ≡ found
      → step (move key start end) (schedule_of w)
        ≡ relocate (map_option view found) key start end (schedule_of w)
  unfolding step
  relocate_is key start end found f =
      ap (λ x. relocate x key start end (schedule_of w))
        (entry_view key w.db.appointments ∙ ap (map_option view) f)

  abbrev with_entries : List Entry → Schedule
  with_entries entries = record { entries = entries; next_key = w.db.next_id }

  cancelled_step :
      (key : ℕ) (a : Appointment) (p : Result (Unit {0}) × World)
      → find_appointment key w.db.appointments ≡ some a
      → Cancels s a w p
      → Simulates (cancel key) w (removal_outcome (respond 204 p.0), p.1)
  cancelled_step key a _ f (row_only h lt) =
      absurd (has_event a (found_lem IsBooked key w.db.appointments a f all).0 h)
  cancelled_step key a _ f (kept i e h k) =
      absurd (calendar_accepts _ e (accepting.cancels w.calendar_log i) k)
  cancelled_step key a _ f (both i h k lt) =
      let (is_booked, same_key) = found_lem IsBooked key w.db.appointments a f all in
      simulated s accepting w all (cancel key) released _ _ (release_is key (some a) f)
        (
          refl,
          ap with_entries
              (update_view key _ w.db.appointments a (cancelled_row s a w) f same_key refl),
        )
        (All-replace_row IsBooked (cancelled_row s a w) w.db.appointments is_booked all)

  release_found :
      (key : ℕ) (found : Option Appointment)
      → find_appointment key w.db.appointments ≡ found
      → let p = cancel_row s found w in Simulates (cancel key) w (removal_outcome p.0, p.1)
  release_found key none f =
      simulated s accepting w all (cancel key) Outcome.missing w _ (release_is key none f)
        (refl, refl) all
  release_found key (some a) f =
      cancelled_step key a _ f
        (cancel_appointment-Cancels s a w (found_lem IsBooked key w.db.appointments a f all).0.0)

  moved_step :
      (key start end : ℕ) (a : Appointment) (p : Result Appointment × World)
      → find_appointment key w.db.appointments ≡ some a
      → Moves s a start end w p
      → Simulates (move key start end) w (appointment_outcome (respond_booking p.0), p.1)
  moved_step key start end a _ f (Moves.no_event h) =
      absurd (has_event a (found_lem IsBooked key w.db.appointments a f all).0 h)
  moved_step key start end a _ f (Moves.not_moved i e h k) =
      absurd (calendar_accepts _ e (accepting.reschedules w.calendar_log i start end) k)
  moved_step key start end a _ f (Moves.not_stored i h k le) =
      simulated s accepting w all (move key start end) Outcome.invalid _
        (Outcome.invalid, schedule_of w)
        (relocate_is key start end (some a) f
          ∙ relocate_backwards (view a) key start end (schedule_of w) le)
        (refl, refl) all
  moved_step key start end a _ f (Moves.stored i h k lt) =
      let (is_booked, same_key) = found_lem IsBooked key w.db.appointments a f all in
      simulated s accepting w all (move key start end) (settled a.id) _ _
        (relocate_is key start end (some a) f
          ∙ relocate_forwards (view a) key start end (schedule_of w) lt)
        (
          ap settled same_key,
          ap with_entries
              (update_view key _ w.db.appointments a (moved s a start end) f same_key refl),
        )
        (All-replace_row IsBooked (moved s a start end) w.db.appointments
          (lt, is_booked.1, is_booked.2) all)

  relocate_found :
      (key start end : ℕ) (found : Option Appointment)
      → find_appointment key w.db.appointments ≡ found
      → let p = move_row s found (record { starts_at = start; ends_at = end }) w in
        Simulates (move key start end) w (appointment_outcome p.0, p.1)
  relocate_found key start end none f =
      simulated s accepting w all (move key start end) Outcome.missing w _
        (relocate_is key start end none f) (refl, refl) all
  relocate_found key start end (some a) f =
      moved_step key start end a _ f (reschedule_appointment-Moves s a start end w)

  perform-Simulates : (c : Command) → Simulates c w (perform s c w)
  unfolding perform delete_appointment patch_appointment
  perform-Simulates (book c start end call_id notes) =
      book_step s accepting w all c start end call_id notes _
        (book_appointment-Books s c start end call_id notes w)
  perform-Simulates (cancel key) = release_found key _ refl
  perform-Simulates (move key start end) = relocate_found key start end _ refl

-- With a calendar that takes whatever it is asked and senders that raise nothing that is not ignored, from rows
-- as the service books them: any sequence of bookings, cancellations and moves gives the outcomes that the abstract
-- schedule gives, and leaves the rows that are its entries.
pub run_commands_refine :
    (s : Service) (cs : List Command) (w : World)
    → IsAccepting s
    → All IsBooked w.db.appointments
    → let p = run_commands (perform s) cs w in
      let q = run_commands step cs (schedule_of w) in (p.0 ≡ q.0) × (schedule_of p.1 ≡ q.1)
unfolding run_commands
run_commands_refine s [] w accepting all = (refl, refl)
run_commands_refine s (c ∷ cs) w accepting all =
    let first = perform-Simulates s accepting w all c in
    let rest = run_commands_refine s cs (perform s c w).1 accepting first.all_booked in
    let next = ap (run_commands step cs) first.same_schedule in
    (
      ap₂ (λ o os. o ∷ os) first.same_outcome (rest.0 ∙ ap (λ x. x.0) next),
      rest.1 ∙ ap (λ x. x.1) next,
    )
