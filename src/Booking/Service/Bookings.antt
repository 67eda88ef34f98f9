-- ===== src/Booking/Service/Bookings.antt =====
-- `book_appointment` of src/openvoice/booking/service.py: what it does on each branch, and what that means
-- for the appointments of a client.
use open_voice.Base.{
  ℕ, suc, ◌≡◌, ◌≢◌, ◌<◌, ◌≤◌, refl, sym, ap, subst, ◌∙◌, ◌⊎◌, inl, inr, true, false, ◌&&◌, Option,
  none, some, [], ◌∷◌, ◌++◌, arith, Bool-cases, Option-cases, ◌==◌, ltb,
}
use open_voice.Base.Text.{Text, codes}
use open_voice.Base.Result.{Error, Result, ok, err, Exec, pure, ◌>>◌}
use open_voice.Db.{Appointment, Client, Db, insert_appointment}
use open_voice.Booking.Service.{Service, World, create_event, display_name, find_overlapping}
use open_voice.Booking.Service.Actions.{
  send_confirmation, conflict, booked, book_new, book_existing, book_appointment,
}
use open_voice.Booking.Service.Overlaps.{
  NoClash, NoClash-append_one, find_overlapping-none, find_overlapping_added,
}
use open_voice.Booking.Service.Confirmation.{OnlySends, send_confirmation-Harmless}

module _ (s : Service) (c : Client) (start end : ℕ) (call_id : Option ℕ) (notes : Option Text)
    (w : World) where
  -- the title of the event
  abbrev pub summary : Text
  summary = codes "Appointment: " ++ display_name c

  -- the answer of the calendar
  abbrev pub created : Result Text
  created = s.calendar.on_create w.calendar_log start end summary

  abbrev pub asked : World
  asked = record w { calendar_log = w.calendar_log ++ create_event start end summary ∷ [] }

  abbrev pub new_row : Text → Appointment
  new_row event_id = booked s w.db.next_id c start end call_id notes event_id

  -- the row is stored
  abbrev pub with_row : Text → World
  with_row event_id = record asked {
    db = record w.db {
      appointments = w.db.appointments ++ new_row event_id ∷ [];
      next_id = suc w.db.next_id;
    };
  }

  -- what the confirmation then does
  abbrev pub confirmed : Text → Result (Unit {0}) × World
  confirmed event_id = send_confirmation s c (new_row event_id) (with_row event_id)

  -- What a booking may do: the result, and the world after it.
  pub data Books : Result Appointment × World → Type 0 where
    -- the same appointment is there already
    repeated :
        (a : Appointment)
        → find_overlapping c.id start end w.db.appointments ≡ some a
        → (a.starts_at == start && a.ends_at == end) ≡ true
        → Books (ok a, w)
    -- another one is in the way
    refused :
        (a : Appointment)
        → find_overlapping c.id start end w.db.appointments ≡ some a
        → (a.starts_at == start && a.ends_at == end) ≡ false
        → Books (err (conflict s a), w)
    -- the calendar refuses
    not_created :
        (e : Error)
        → find_overlapping c.id start end w.db.appointments ≡ none
        → created ≡ err e
        → Books (err e, asked)
    -- the database refuses, after the event was created
    not_stored :
        (event_id : Text)
        → find_overlapping c.id start end w.db.appointments ≡ none
        → created ≡ ok event_id
        → end ≤ start
        → Books (err Error.integrity_error, asked)
    -- the row is stored; only a sender that raises something else than a `NotificationError` can
    -- still make the call raise
    stored :
        (event_id : Text) (r : Result Appointment) (after : World)
        → find_overlapping c.id start end w.db.appointments ≡ none
        → created ≡ ok event_id
        → start < end
        → after.db ≡ (with_row event_id).db
        → after.calendar_log ≡ w.calendar_log ++ create_event start end summary ∷ []
        → (r ≡ ok (new_row event_id))
          ⊎ ((e : Error) × (r ≡ err e)
              × ((why : Text) → e ≢ Error.notification_error why)
              × ((confirmed event_id).0 ≡ err e))
        → Books (r, after)

  existing_lem :
      (a : Appointment)
      → find_overlapping c.id start end w.db.appointments ≡ some a
      → book_appointment s c start end call_id notes w ≡ book_existing s a start end w
  unfolding book_appointment
  existing_lem a h = ground arith

  free_lem :
      find_overlapping c.id start end w.db.appointments ≡ none
      → book_appointment s c start end call_id notes w ≡ book_new s c start end call_id notes w
  unfolding book_appointment
  free_lem h = ground arith

  new_refused_lem :
      (e : Error) → created ≡ err e → book_new s c start end call_id notes w ≡ (err e, asked)
  unfolding book_new
  new_refused_lem e h = rw h refl

  new_unstored_lem :
      (event_id : Text)
      → created ≡ ok event_id
      → end ≤ start
      → book_new s c start end call_id notes w ≡ (err Error.integrity_error, asked)
  unfolding book_new insert_appointment
  new_unstored_lem event_id h le = ground arith

  abbrev pub confirm_row : Text → Exec World Appointment
  confirm_row event_id = send_confirmation s c (new_row event_id) >> pure (new_row event_id)

  new_stored_lem :
      (event_id : Text)
      → created ≡ ok event_id
      → start < end
      → book_new s c start end call_id notes w ≡ confirm_row event_id (with_row event_id)
  unfolding book_new insert_appointment
  new_stored_lem event_id h lt = ground arith

  confirmed_step :
      (event_id : Text) (r : Result (Unit {0})) (after : World)
      → find_overlapping c.id start end w.db.appointments ≡ none
      → created ≡ ok event_id
      → start < end
      → OnlySends (with_row event_id) after
      → ((why : Text) → r ≢ err (Error.notification_error why))
      → (confirmed event_id).0 ≡ r
      → Books (((λ (_ : World). (r, after)) >> pure (new_row event_id)) w)
  confirmed_step event_id (ok _) after free h lt o ne is =
      stored event_id _ after free h lt o.db o.calendar_log (inl refl)
  confirmed_step event_id (err e) after free h lt o ne is =
      stored event_id _ after free h lt o.db o.calendar_log
        (inr (e, refl, λ why same. ne why (ap err same), is))

  free-Books :
      (answer : Result Text)
      → created ≡ answer
      → find_overlapping c.id start end w.db.appointments ≡ none
      → Books (book_new s c start end call_id notes w)
  free-Books (err e) h free = subst Books (sym (new_refused_lem e h)) (not_created e free h)
  free-Books (ok event_id) h free = elim (Bool-cases (ltb start end)) [
    | inl lt ↦ subst Books (sym (new_stored_lem event_id h (ground arith))) (
        let sent = send_confirmation-Harmless s c (new_row event_id) (with_row event_id) in
        confirmed_step event_id _ _ free h (ground arith) sent.0 sent.1 refl)
    | inr ge ↦
        subst Books (sym (new_unstored_lem event_id h (ground arith)))
          (not_stored event_id free h (ground arith))
  ]

  existing-Books :
      (a : Appointment)
      → find_overlapping c.id start end w.db.appointments ≡ some a
      → Books (book_existing s a start end w)
  existing-Books a h = elim (Bool-cases (a.starts_at == start && a.ends_at == end)) [
    | inl same ↦ rw same (repeated a h same)
    | inr other ↦ rw other (refused a h other)
  ]

  -- `book_appointment` in any state of the world: it returns the overlapping appointment of the same
  -- times; or raises a `BookingError` for one of other times; or raises what the calendar raised;
  -- or, for an end that is not after the start, raises the database's error with the event left in
  -- the calendar; or stores one row for the one event it created, whatever happens to the messages.
  pub book_appointment-Books : Books (book_appointment s c start end call_id notes w)
  book_appointment-Books = elim (Option-cases (find_overlapping c.id start end w.db.appointments)) [
    | inl free ↦ subst Books (sym (free_lem free)) (free-Books created refl free)
    | inr (a, h) ↦ subst Books (sym (existing_lem a h)) (existing-Books a h)
  ]

repeat_lem :
    (s : Service) (c : Client) (start end : ℕ) (call_id : Option ℕ) (notes : Option Text)
    (w : World) (a : Appointment)
    → find_overlapping c.id start end w.db.appointments ≡ some a
    → (a.starts_at == start && a.ends_at == end) ≡ true
    → book_appointment s c start end call_id notes w ≡ (ok a, w)
repeat_lem s c start end call_id notes w a h same =
    existing_lem s c start end call_id notes w a h ∙ rw same refl

own_times :
    (s : Service) (c : Client) (start end : ℕ) (call_id : Option ℕ) (notes : Option Text)
    (w : World) (event_id : Text)
    → let a = new_row s c start end call_id notes w event_id in
      (a.starts_at == start && a.ends_at == end) ≡ true
own_times s c start end call_id notes w event_id = ground arith

-- No branch of a booking gives a client two active appointments that overlap.
pub book_appointment-NoClash :
    (s : Service) (c : Client) (start end : ℕ) (call_id : Option ℕ) (notes : Option Text)
    (w : World)
    → NoClash w.db.appointments
    → NoClash (book_appointment s c start end call_id notes w).1.db.appointments
book_appointment-NoClash s c start end call_id notes w n =
    after _ (book_appointment-Books s c start end call_id notes w)
  where
    after :
        (p : Result Appointment × World)
        → Books s c start end call_id notes w p
        → NoClash p.1.db.appointments
    after _ (repeated a h t) = n
    after _ (refused a h t) = n
    after _ (not_created e f h) = n
    after _ (not_stored i f h le) = n
    after _ (stored i r w' f h lt same_db log res) =
        subst NoClash (sym (ap (λ (d : Db). d.appointments) same_db)) (
          NoClash-append_one _ _
            (find_overlapping-none (new_row s c start end call_id notes w i) _ f) n)

-- Booking the same times again, in the world that a booking which returned an appointment left
-- behind, gives that appointment once more and changes nothing: no second row, event or message.
pub book_appointment_again :
    (s : Service) (c : Client) (start end : ℕ) (call_id : Option ℕ) (notes : Option Text)
    (w : World) (a : Appointment)
    → (book_appointment s c start end call_id notes w).0 ≡ ok a
    → let after = (book_appointment s c start end call_id notes w).1 in
      book_appointment s c start end call_id notes after ≡ (ok a, after)
book_appointment_again s c start end call_id notes w a h =
    again _ (book_appointment-Books s c start end call_id notes w) h
  where
    again :
        (p : Result Appointment × World)
        → Books s c start end call_id notes w p
        → p.0 ≡ ok a
        → book_appointment s c start end call_id notes p.1 ≡ (ok a, p.1)
    again _ (repeated b f t) h = repeat_lem s c start end call_id notes w b f t ∙ ap (λ r. (r, w)) h
    again _ (refused b f t) h = cc
    again _ (not_created e f h1) h = cc
    again _ (not_stored i f h1 le) h = cc
    again _ (stored i r w' f h1 lt same_db log res) h =
        repeat_lem s c start end call_id notes w' (new_row s c start end call_id notes w i)
          (ap (find_overlapping c.id start end) (ap (λ (d : Db). d.appointments) same_db)
            ∙ find_overlapping_added (new_row s c start end call_id notes w i) w.db.appointments f
                refl lt)
          (own_times s c start end call_id notes w i)
        ∙ ap (λ r. (r, w')) (returned res)
      where
        returned :
            (r ≡ ok (new_row s c start end call_id notes w i))
              ⊎ ((e : Error) × (r ≡ err e)
                  × ((why : Text) → e ≢ Error.notification_error why)
                  × ((confirmed s c start end call_id notes w i).0 ≡ err e))
            → ok (new_row s c start end call_id notes w i) ≡ ok a
        returned (inl same) = cc
        returned (inr (e, same, ne, is)) = cc
