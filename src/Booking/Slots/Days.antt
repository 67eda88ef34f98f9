-- ===== src/Booking/Slots/Days.antt =====
-- The outer loop of `find_available_slots` (src/openvoice/booking/service.py): the grid over the days.
use open_voice.Base.{
  ℕ, zero, suc, ◌+◌, ◌-◌, ◌*◌, ◌/◌, ◌≤◌, ◌<◌, ◌≡◌, refl, sym, ap, ◌∙◌, inl, inr, Bool, true, false,
  ◌&&◌, List, [], ◌∷◌, ◌++◌, arith, Bool-cases, length, keep, ltb,
}
use native.Mathlib.Nat.{div-lt_iff_lt-mul}
use open_voice.Base.Time.{
  pos, minute, hour, day_length, datetime_max, replace_time, add_time_pos, replace_time_at,
  replace_hour_at,
}
use open_voice.Base.Result.{ok, then_ok}
use open_voice.Booking.{TimeSlot, Hours}
use open_voice.Booking.Slots.{slots_of_day, slot_fuel, slots_from}
use open_voice.Booking.Slots.Filled.{filled, filled_nil, filled_full, filled-append}
use open_voice.Booking.Slots.Grid.{grid, is_free, Fits-div, slots_of_day-filled}

-- Opening and closing time of day `n`, counted from `datetime.min`.
abbrev pub opening : Hours → ℕ → ℕ
opening hours n = n * day_length + hours.business_hours_start * hour

abbrev pub closing : Hours → ℕ → ℕ
closing hours n = n * day_length + hours.business_hours_end * hour

-- As many slots as fit between opening and closing time.
abbrev pub day_slots : Hours → ℕ → ℕ → List TimeSlot
day_slots hours d n = grid d (opening hours n) ((closing hours n - opening hours n) / d)

-- Those of `k` days, from day `n` on.
abbrev pub days_slots : Hours → ℕ → ℕ → ℕ → List TimeSlot
days_slots hours d n zero = []
days_slots hours d n (suc k) = day_slots hours d n ++ days_slots hours d (suc n) k

-- The hours are such as `datetime.replace` takes.
pub record AreHours (hours : Hours) : Type 0 where
  pub start_lt : hours.business_hours_start < 24
  pub end_lt : hours.business_hours_end < 24

-- Exactly `k` days from day `n` on open before `search_until`.
abbrev pub Open : Hours → ℕ → ℕ → ℕ → Type 0
Open hours search_until zero n = search_until ≤ opening hours n
Open hours search_until (suc k) n =
    (opening hours n < search_until) × Open hours search_until k (suc n)

keep-append :
    (p : TimeSlot → Bool) (xs ys : List TimeSlot) → keep p (xs ++ ys) ≡ keep p xs ++ keep p ys
keep-append p [] ys = refl
keep-append p (x ∷ xs) ys = ground (arith, keep-append p xs ys)

module _ (hours : Hours) (v : AreHours hours) (d : ℕ) (long : minute ≤ d) (busy : List TimeSlot)
    (limit : ℕ) where
  free_in : ℕ → List TimeSlot
  free_in n = keep (is_free busy) (day_slots hours d n)

  few_slots : (n : ℕ) → (closing hours n - opening hours n) / d < slot_fuel (opening hours n)
  few_slots n =
      let s = v.start_lt in
      let e = v.end_lt in
      let few =
        (div-lt_iff_lt-mul {k = d} {x = closing hours n - opening hours n} {y = 1442}
            (omega arith)).1
          (omega arith) in
      omega arith

  next_opening :
      (n : ℕ)
      → replace_time hours.business_hours_start (opening hours n + day_length)
        ≡ ok (opening hours (suc n))
  next_opening n =
      replace_time_at hours.business_hours_start (suc n) (opening hours n + day_length) v.start_lt
        (let s = v.start_lt in omega arith)

  one_day :
      (n : ℕ) (cs : List TimeSlot)
      → opening hours n + day_length + d ≤ datetime_max
      → slots_of_day
          (slot_fuel (opening hours n))
          (pos d)
          busy
          (closing hours n)
          limit
          (opening hours n)
          cs
        ≡ ok (filled limit cs (free_in n))
  unfolding free_in
  one_day n cs fits =
      slots_of_day-filled ((closing hours n - opening hours n) / d) (slot_fuel (opening hours n)) d
        (closing hours n) limit (opening hours n) busy cs (few_slots n)
        (Fits-div _ d (closing hours n) (opening hours n) (omega arith) refl) (omega arith)
        (let e = v.end_lt in omega arith)

  module _ (search_until : ℕ) (fits : search_until + day_length + d ≤ datetime_max) where
    slots_from_stop :
        (fuel n : ℕ) (cs : List TimeSlot)
        → (ltb (opening hours n) search_until && ltb (length cs) limit) ≡ false
        → slots_from (suc fuel) hours (pos d) busy search_until limit (opening hours n) cs ≡ ok cs
    unfolding slots_from
    slots_from_stop fuel n cs stop = rw (stop, slots_from)

    slots_from_go :
        (fuel n : ℕ) (cs : List TimeSlot)
        → opening hours n < search_until
        → (ltb (opening hours n) search_until && ltb (length cs) limit) ≡ true
        → slots_from (suc fuel) hours (pos d) busy search_until limit (opening hours n) cs
          ≡ slots_from fuel hours
              (pos d)
              busy
              search_until
              limit
              (opening hours (suc n))
              (filled limit cs (free_in n))
    unfolding slots_from
    slots_from_go fuel n cs before go =
        rw (go, slots_from)
          (rw
            (
              replace_hour_at hours.business_hours_start hours.business_hours_end n v.start_lt
                  v.end_lt,
              then_ok,
            )
            (rw (one_day n cs (omega arith), then_ok)
              (rw (add_time_pos (opening hours n) day_length (omega arith), then_ok)
                (rw (next_opening n, then_ok)))))

    -- With fuel for every day, the outer loop fills up with the free slots of the days.
    pub slots_from-filled :
        (k fuel n : ℕ) (cs : List TimeSlot)
        → k < fuel
        → Open hours search_until k n
        → slots_from fuel hours (pos d) busy search_until limit (opening hours n) cs
          ≡ ok (filled limit cs (keep (is_free busy) (days_slots hours d n k)))
    slots_from-filled k zero n cs h o = elim h [ ]
    slots_from-filled zero (suc fuel) n cs h o =
        slots_from_stop fuel n cs (ground arith) ∙ ap ok (sym (filled_nil limit cs))
    slots_from-filled (suc k) (suc fuel) n cs h o =
        let rest = keep (is_free busy) (days_slots hours d (suc n) k) in
        let all_slots =
          ap (λ xs. ok (filled limit cs xs))
            (keep-append (is_free busy) (day_slots hours d n) (days_slots hours d (suc n) k)) in
        elim (Bool-cases (ltb (length cs) limit)) [
          | inl room ↦
              slots_from_go fuel n cs o.0 (ground arith)
              ∙ slots_from-filled k fuel (suc n) (filled limit cs (free_in n)) (omega arith) o.1
              ∙ ap ok (filled-append limit cs (free_in n) rest)
              ∙ (unfold free_in in sym all_slots)
          | inr full ↦
              slots_from_stop fuel n cs (ground arith)
              ∙ ap ok (sym (filled_full limit cs _ (ground arith)))
        ]
