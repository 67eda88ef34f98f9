-- ===== src/Booking/Slots/Proposed.antt =====
-- What `find_available_slots` of src/openvoice/booking/service.py proposes.
use open_voice.Base.{
  ℕ, zero, suc, ◌+◌, ◌-◌, ◌/◌, ◌≤◌, ◌<◌, ◌≡◌, refl, ap, ◌∙◌, ◌⊎◌, inl, inr, Bool, true, List, [],
  ◌∷◌, arith, Bool-cases, length, take, keep, All, All-append, ltb, leb, ltb→lt, if◌then◌else◌,
  length-take,
}
use open_voice.Base.Time.{pos, minute, day_length, datetime_max, add_time_pos, replace_time_at}
use open_voice.Base.Result.{ok, then_ok}
use open_voice.Booking.{TimeSlot, Hours}
use open_voice.Booking.Slots.{day_fuel, first_day, propose}
use open_voice.Booking.Slots.Grid.{grid, is_free, Fits, Fits-div}
use open_voice.Booking.Slots.Days.{
  opening, closing, day_slots, days_slots, AreHours, Open, slots_from-filled,
}

-- The number of the first day that opens at or after `search_from`.
abbrev pub first_number : Hours → ℕ → ℕ
first_number hours search_from =
    let today = search_from / day_length in
    if ltb (opening hours today) search_from then suc today else today

-- How many days from day `n` on open before `search_until`.
abbrev pub days_open : Hours → ℕ → ℕ → ℕ
days_open hours search_until n = (search_until + day_length - 1 - opening hours n) / day_length

sub-zero : (n : ℕ) → n - 0 ≡ n
sub-zero n = omega arith

Open-div :
    (hours : Hours) (search_until k n : ℕ)
    → days_open hours search_until n ≡ k
    → Open hours search_until k n
Open-div hours search_until zero n e = omega arith
Open-div hours search_until (suc k) n e =
    (omega arith, Open-div hours search_until k (suc n) (omega arith))

All-take : {A : Type 0} (P : A → Type 0) (n : ℕ) (xs : List A) → All P xs → All P (take n xs)
All-take P zero xs h = tt
All-take P (suc n) [] h = tt
All-take P (suc n) (x ∷ xs) h = (h.0, All-take P n xs h.1)

-- What `keep` leaves passes the test.
All-keep :
    {A : Type 0} (P Q : A → Type 0) (p : A → Bool) (xs : List A)
    → ((x : A) → P x → p x ≡ true → Q x)
    → All P xs
    → All Q (keep p xs)
All-keep P Q p [] f h = tt
All-keep P Q p (x ∷ xs) f h = elim (Bool-cases (p x)) [
  | inl e ↦ rw e (f x h.0 e, All-keep P Q p xs f h.1)
  | inr e ↦ rw e (All-keep P Q p xs f h.1)
]

-- The slot and the busy slot have no instant in common.
abbrev pub Apart : TimeSlot → TimeSlot → Type 0
Apart s b = (b.end ≤ s.start) ⊎ (s.end ≤ b.start)

is_free-Apart : (busy : List TimeSlot) (s : TimeSlot) → is_free busy s ≡ true → All (Apart s) busy
is_free-Apart [] s h = tt
is_free-Apart (b ∷ busy) s h = (
  elim (Bool-cases (leb b.end s.start)) [
    | inl before ↦ inl (ground arith)
    | inr not_before ↦ inr (ground arith)
  ],
  is_free-Apart busy s (ground arith),
)

-- A slot of length `d`, not before `search_from` and within the hours of some day.
pub record InHours (hours : Hours) (d search_from : ℕ) (s : TimeSlot) : Type 0 where
  pub day : ℕ
  pub not_before : search_from ≤ s.start
  pub lasts : s.end ≡ s.start + d
  pub from_opening : opening hours day ≤ s.start
  pub to_closing : s.end ≤ closing hours day

grid-InHours :
    (hours : Hours) (d search_from day k start : ℕ)
    → search_from ≤ start
    → opening hours day ≤ start
    → Fits d (closing hours day) k start
    → All (InHours hours d search_from) (grid d start k)
grid-InHours hours d search_from day zero start a b h = tt
grid-InHours hours d search_from day (suc k) start a b h = (
  record { day = day; not_before = a; lasts = refl; from_opening = b; to_closing = h.0 },
  grid-InHours hours d search_from day k (start + d) (omega arith) (omega arith) h.1,
)

days_slots-InHours :
    (hours : Hours) (d search_from n k : ℕ)
    → 0 < d
    → search_from ≤ opening hours n
    → All (InHours hours d search_from) (days_slots hours d n k)
days_slots-InHours hours d search_from n zero h a = tt
days_slots-InHours hours d search_from n (suc k) h a =
    All-append (InHours hours d search_from) (day_slots hours d n) (days_slots hours d (suc n) k)
      (grid-InHours hours d search_from n _ (opening hours n) a (omega arith)
        (Fits-div _ d (closing hours n) (opening hours n) h refl))
      (days_slots-InHours hours d search_from (suc n) k h (omega arith))

module _ (hours : Hours) (v : AreHours hours) (d : ℕ) (long : minute ≤ d) (busy : List TimeSlot)
    (search_from search_until limit : ℕ) (ahead : search_from ≤ search_until)
    (fits : search_until + day_length + d ≤ datetime_max) where
  first_day_lem : first_day hours search_from ≡ ok (opening hours (first_number hours search_from))
  unfolding first_day
  first_day_lem = elim (Bool-cases (ltb (opening hours (search_from / day_length)) search_from)) [
    | inl late ↦
        rw
          (
            replace_time_at hours.business_hours_start (search_from / day_length) search_from
                v.start_lt refl,
            then_ok,
          )
          (rw late (
            let before = ltb→lt (opening hours (search_from / day_length)) search_from late in
            add_time_pos (opening hours (search_from / day_length)) day_length (omega arith)
            ∙ ap ok (omega arith)))
    | inr early ↦
        rw
          (
            replace_time_at hours.business_hours_start (search_from / day_length) search_from
                v.start_lt refl,
            then_ok,
          )
          (rw early)
  ]

  first_not_before : search_from ≤ opening hours (first_number hours search_from)
  first_not_before =
      elim (Bool-cases (ltb (opening hours (search_from / day_length)) search_from)) [
        | inl late ↦ rw late (omega arith)
        | inr early ↦ rw early (ground arith)
      ]

  -- For hours that `datetime.replace` takes, a duration of at least a minute and a window that lies in the
  -- range of `datetime`, the search ends, and proposes, of the grid of all slots of the days
  -- that open from `search_from` on and before `search_until`, the first `limit` that overlap no busy
  -- slot.
  pub propose-first_free :
      propose hours (pos d) busy search_from search_until limit
      ≡ ok (
          take limit (
            keep (is_free busy) (
              days_slots hours d
                (first_number hours search_from)
                (days_open hours search_until (first_number hours search_from)))))
  unfolding propose
  propose-first_free =
      let n = first_number hours search_from in
      rw (first_day_lem, then_ok)
        (slots_from-filled hours v d long busy limit search_until fits
            (days_open hours search_until n) (day_fuel search_until) n [] (omega arith)
            (Open-div hours search_until _ n refl)
          ∙ ap
              (λ k. ok (
                take k
                  (keep (is_free busy) (days_slots hours d n (days_open hours search_until n)))))
              (sub-zero limit))

  -- For hours that `datetime.replace` takes, a duration of at least a minute and a window that lies in the
  -- range of `datetime`, the search ends with at most `limit` slots. Each lasts `d`, starts at or
  -- after `search_from`, lies within the hours of one day, and shares no instant with any busy slot.
  pub propose_sound :
      (slots : List TimeSlot) × (propose hours (pos d) busy search_from search_until limit
        ≡ ok slots)
      × (length slots ≤ limit)
      × All (λ s. InHours hours d search_from s × All (Apart s) busy) slots
  propose_sound =
      let n = first_number hours search_from in
      let all_slots = days_slots hours d n (days_open hours search_until n) in
      let free = keep (is_free busy) all_slots in
      (
        take limit free,
        propose-first_free,
        omega (arith, length-take limit free),
        All-take _ limit free (
            All-keep (InHours hours d search_from) _ (is_free busy) all_slots
              (λ s h e. (h, is_free-Apart busy s e))
              (days_slots-InHours hours d search_from n (days_open hours search_until n)
                (omega arith) first_not_before)),
      )
