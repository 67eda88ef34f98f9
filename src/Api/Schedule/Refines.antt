-- ===== src/Api/Schedule/Refines.antt =====
-- The operations of src/openvoice/booking/service.py, as src/openvoice/api calls them, refine the abstract schedule.
use mathlib.Core.List.{map-append}
use open_voice.Base.{
  ℕ, suc, ◌≡◌, ◌≢◌, ◌<◌, ◌≤◌, refl, sym, ap, ap₂, subst, ◌∙◌, inl, inr, Bool, true, false, ◌&&◌,
  Option, none, some, List, [], ◌∷◌, ◌++◌, map, arith, ◌==◌, Bool-cases, if◌then◌else◌, All,
  All-append,
}
use open_voice.Base.Text.{Text}
use open_voice.Base.Result.{Error, Result, ok, err}
use open_voice.Db.{Appointment, Client, Db, find_appointment, replace_row}
use open_voice.Booking.Service.{Service, World, CalendarCall, find_overlapping}
use open_voice.Booking.Service.Actions.{send_confirmation}
use open_voice.Booking.Service.Bookings.{
  Books, repeated, refused, not_created, not_stored, stored, new_row, with_row, summary,
}
use open_voice.Booking.Service.Returned.{returned_row, raised-confirmation}
use open_voice.Services.{map_option}
use open_voice.Api.{respond}
use open_voice.Api.Schedule.{
  Entry, Schedule, Command, book, Outcome, settled, first_overlap, entry_at, update_at, reserve,
  step, appointment_outcome, view, schedule_of,
}

-- What the database and the booking of a row guarantee of it.
abbrev pub IsBooked : Appointment → Type 0
IsBooked a = (a.starts_at < a.ends_at) × (i : Text) × (a.calendar_event_id ≡ some i)

overlap_view :
    (client start end : ℕ) (rows : List Appointment)
    → first_overlap client start end (map view rows)
      ≡ map_option view (find_overlapping client start end rows)
unfolding find_overlapping
overlap_view client start end [] = refl
overlap_view client start end (a ∷ rows) = ground (arith, overlap_view client start end rows)

pub entry_view :
    (key : ℕ) (rows : List Appointment)
    → entry_at key (map view rows) ≡ map_option view (find_appointment key rows)
entry_view key [] = refl
entry_view key (a ∷ rows) = ground (arith, entry_view key rows)

pub found_lem :
    (P : Appointment → Type 0) (key : ℕ) (rows : List Appointment) (a : Appointment)
    → find_appointment key rows ≡ some a
    → All P rows
    → P a × (a.id ≡ key)
found_lem P key [] a h all = cc
found_lem P key (b ∷ rows) a h all = elim (Bool-cases (b.id == key)) [
  | inl same ↦ (subst P (first same) all.0, ground arith)
  | inr other ↦ found_lem P key rows a (ground arith) all.1
]
  where
    first : (b.id == key) ≡ true → b ≡ a
    first same = ground arith

pub update_view :
    (key : ℕ) (f : Entry → Entry) (rows : List Appointment) (a b : Appointment)
    → find_appointment key rows ≡ some a
    → b.id ≡ key
    → view b ≡ f (view a)
    → map view (replace_row b rows) ≡ update_at key f (map view rows)
update_view key f [] a b h k e = refl
update_view key f (c ∷ rows) a b h k e = elim (Bool-cases (c.id == key)) [
  | inl same ↦
      rw (same, id_is true same)
        (ap (λ x. x ∷ map view rows) (e ∙ ap (λ x. f (view x)) (sym (first same))))
  | inr other ↦
      rw (other, id_is false other)
        (ap (λ x. view c ∷ x) (update_view key f rows a b (ground arith) k e))
]
  where
    first : (c.id == key) ≡ true → c ≡ a
    first same = ground arith

    id_is : (t : Bool) → (c.id == key) ≡ t → (c.id == b.id) ≡ t
    id_is t h = subst (λ n. (c.id == n) ≡ t) (sym k) h

-- Services whose calendar takes whatever it is asked, and whose senders raise nothing that is not
-- ignored.
pub record IsAccepting (s : Service) : Type 0 where
  pub creates :
      (log : List CalendarCall) (start end : ℕ) (summary : Text)
      → (i : Text) × (s.calendar.on_create log start end summary ≡ ok i)
  pub cancels : (log : List CalendarCall) (i : Text) → s.calendar.on_cancel log i ≡ ok tt
  pub reschedules :
      (log : List CalendarCall) (i : Text) (start end : ℕ)
      → s.calendar.on_reschedule log i start end ≡ ok tt
  pub confirms : (c : Client) (a : Appointment) (w : World) → (send_confirmation s c a w).0 ≡ ok tt

-- A step of the code does what the step on the schedule does.
pub record Simulates (c : Command) (w : World) (p : Outcome × World) : Type 0 where
  pub same_outcome : p.0 ≡ (step c (schedule_of w)).0
  pub same_schedule : schedule_of p.1 ≡ (step c (schedule_of w)).1
  pub all_booked : All IsBooked p.1.db.appointments

accepts-not_raised : (r : Result Text) (e : Error) → (i : Text) × (r ≡ ok i) → r ≢ err e
accepts-not_raised r e (i, h) k = cc

abbrev schedule_with : List Entry → ℕ → Schedule
schedule_with entries next_key = record { entries = entries; next_key = next_key }

abbrev added : ℕ → ℕ → ℕ → Schedule → Schedule
added client start end s = record {
  entries =
      s.entries
      ++ record { key = s.next_key; client = client; start = start; end = end; active = true } ∷ [];
  next_key = suc s.next_key;
}

forwards :
    (client start end : ℕ) (s : Schedule)
    → start < end
    → reserve none client start end s ≡ (settled s.next_key, added client start end s)
forwards client start end s lt = ground arith

backwards :
    (client start end : ℕ) (s : Schedule)
    → end ≤ start
    → reserve none client start end s ≡ (Outcome.invalid, s)
backwards client start end s le = ground arith

module _ (s : Service) (accepting : IsAccepting s) (w : World)
    (all : All IsBooked w.db.appointments) where
  -- from what the step on the schedule comes to
  pub simulated :
      (c : Command) (o : Outcome) (after : World) (q : Outcome × Schedule)
      → step c (schedule_of w) ≡ q
      → (o ≡ q.0) × (schedule_of after ≡ q.1)
      → All IsBooked after.db.appointments
      → Simulates c w (o, after)
  simulated c o after q is same all' = record {
    same_outcome = same.0 ∙ sym (ap (λ x. x.0) is);
    same_schedule = same.1 ∙ sym (ap (λ x. x.1) is);
    all_booked = all';
  }

  reserve_is :
      (c : Client) (start end : ℕ) (call_id : Option ℕ) (notes : Option Text)
      (found : Option Appointment)
      → find_overlapping c.id start end w.db.appointments ≡ found
      → step (book c start end call_id notes) (schedule_of w)
        ≡ reserve (map_option view found) c.id start end (schedule_of w)
  unfolding step
  reserve_is c start end call_id notes found f =
      ap (λ x. reserve x c.id start end (schedule_of w))
        (overlap_view c.id start end w.db.appointments ∙ ap (map_option view) f)

  repeated_is :
      (a : Appointment) (client start end : ℕ) (b : Bool)
      → (a.starts_at == start && a.ends_at == end) ≡ b
      → reserve (some (view a)) client start end (schedule_of w)
        ≡ (if b then settled a.id else Outcome.clash, schedule_of w)
  repeated_is a client start end b h = rw h refl

  pub book_step :
      (c : Client) (start end : ℕ) (call_id : Option ℕ) (notes : Option Text)
      (p : Result Appointment × World)
      → Books s c start end call_id notes w p
      → Simulates (book c start end call_id notes) w (appointment_outcome (respond 201 p.0), p.1)
  book_step c start end call_id notes _ (repeated a f t) =
      simulated (book c start end call_id notes) _ w (settled a.id, schedule_of w)
        (reserve_is c start end call_id notes (some a) f ∙ repeated_is a c.id start end true t)
        (refl, refl) all
  book_step c start end call_id notes _ (refused a f t) =
      simulated (book c start end call_id notes) _ w (Outcome.clash, schedule_of w)
        (reserve_is c start end call_id notes (some a) f ∙ repeated_is a c.id start end false t)
        (refl, refl) all
  book_step c start end call_id notes _ (not_created e f k) = absurd (
      accepts-not_raised _ e
        (accepting.creates w.calendar_log start end (summary s c start end call_id notes w)) k)
  book_step c start end call_id notes _ (not_stored i f k le) =
      simulated (book c start end call_id notes) _ _ (Outcome.invalid, schedule_of w)
        (reserve_is c start end call_id notes none f ∙ backwards c.id start end (schedule_of w) le)
        (refl, refl) all
  book_step c start end call_id notes _ (stored i (ok a) after f k lt same_db log res) =
      subst (λ x. Simulates (book c start end call_id notes) w (settled x.id, after))
        (sym (returned_row a (new_row s c start end call_id notes w i) res))
        (simulated (book c start end call_id notes) _ after _
          (reserve_is c start end call_id notes none f ∙ forwards c.id start end (schedule_of w) lt)
          (
            refl,
            ap₂ schedule_with
                (ap (map view) (ap (λ (d : Db). d.appointments) same_db)
                  ∙ map-append view w.db.appointments _)
                (ap (λ (d : Db). d.next_id) same_db),
          )
          (subst (All IsBooked) (sym (ap (λ (d : Db). d.appointments) same_db))
            (All-append IsBooked w.db.appointments _ all ((lt, i, refl), tt))))
  book_step c start end call_id notes _ (stored i (err e) after f k lt same_db log res) = absurd (
      raised-confirmation e (new_row s c start end call_id notes w i) (err e) _ res refl (
        accepting.confirms c (new_row s c start end call_id notes w i)
          (with_row s c start end call_id notes w i)))
