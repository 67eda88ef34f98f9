-- ===== src/Booking/Slots/Grid.antt =====
-- The slots that `find_available_slots` of src/openvoice/booking/service.py proposes, described without its
-- loops: of a grid of slots over the days, the first free ones.
use open_voice.Base.{
  ℕ, zero, suc, ◌+◌, ◌-◌, ◌/◌, ◌≤◌, ◌<◌, ◌≡◌, sym, ap, ◌∙◌, inl, inr, Bool, true, false, not, ◌&&◌,
  List, [], ◌∷◌, arith, Bool-cases, length, keep, ltb, leb, if◌then◌else◌,
}
use native.Mathlib.Nat.{div-eq-sub-div, div-eq_of_lt}
use open_voice.Base.Time.{pos, datetime_max, add_time_pos}
use open_voice.Base.Result.{ok, then_ok}
use open_voice.Booking.{TimeSlot}
use open_voice.Booking.Slots.Filled.{filled, filled_nil, filled_full, filled_cons}
use open_voice.Booking.Slots.{overlaps_any, with_slot, slots_of_day}

-- `n` slots of length `d`, one after the other from `start` on.
abbrev pub grid : ℕ → ℕ → ℕ → List TimeSlot
grid d start zero = []
grid d start (suc n) = record { start = start; end = start + d } ∷ grid d (start + d) n

abbrev pub is_free : List TimeSlot → TimeSlot → Bool
is_free busy s = not (overlaps_any s.start s.end busy)

-- Exactly `n` slots of length `d` fit between `start` and `day_end`.
abbrev pub Fits : ℕ → ℕ → ℕ → ℕ → Type 0
Fits d day_end zero start = day_end < start + d
Fits d day_end (suc n) start = (start + d ≤ day_end) × Fits d day_end n (start + d)

-- One slot of the grid, kept or not.
filled-with_slot :
    (limit d start : ℕ) (busy cs xs : List TimeSlot)
    → length cs < limit
    → filled limit (with_slot start (start + d) busy cs) xs
      ≡ filled limit cs (
          if is_free busy (record { start = start; end = start + d })
          then record { start = start; end = start + d } ∷ xs
          else xs)
filled-with_slot limit d start busy cs xs h =
    elim (Bool-cases (overlaps_any start (start + d) busy)) [
      | inl taken ↦ rw (taken, with_slot)
      | inr free ↦
          rw (free, with_slot)
            (filled_cons limit cs xs (record { start = start; end = start + d }) h)
    ]

slots_of_day_stop :
    (fuel : ℕ) (d day_end limit start : ℕ) (busy cs : List TimeSlot)
    → start + d ≤ datetime_max
    → (leb (start + d) day_end && ltb (length cs) limit) ≡ false
    → slots_of_day (suc fuel) (pos d) busy day_end limit start cs ≡ ok cs
unfolding slots_of_day
slots_of_day_stop fuel d day_end limit start busy cs m stop =
    rw (add_time_pos start d m) (rw (stop, then_ok))

slots_of_day_go :
    (fuel : ℕ) (d day_end limit start : ℕ) (busy cs : List TimeSlot)
    → start + d ≤ datetime_max
    → (leb (start + d) day_end && ltb (length cs) limit) ≡ true
    → slots_of_day (suc fuel) (pos d) busy day_end limit start cs
      ≡ slots_of_day fuel
          (pos d)
          busy
          day_end
          limit
          (start + d)
          (with_slot start (start + d) busy cs)
unfolding slots_of_day
slots_of_day_go fuel d day_end limit start busy cs m go =
    rw (add_time_pos start d m) (rw (go, then_ok))

-- With fuel for every slot, the inner loop fills up with the free slots of the day.
pub slots_of_day-filled :
    (n fuel d day_end limit start : ℕ) (busy cs : List TimeSlot)
    → n < fuel
    → Fits d day_end n start
    → start + d ≤ datetime_max
    → day_end + d ≤ datetime_max
    → slots_of_day fuel (pos d) busy day_end limit start cs
      ≡ ok (filled limit cs (keep (is_free busy) (grid d start n)))
slots_of_day-filled n zero d day_end limit start busy cs h fits m m' = elim h [ ]
slots_of_day-filled zero (suc fuel) d day_end limit start busy cs h fits m m' =
    slots_of_day_stop fuel d day_end limit start busy cs m (ground arith)
    ∙ ap ok (sym (filled_nil limit cs))
slots_of_day-filled (suc n) (suc fuel) d day_end limit start busy cs h fits m m' =
    elim (Bool-cases (ltb (length cs) limit)) [
      | inl room ↦
          slots_of_day_go fuel d day_end limit start busy cs m (ground arith)
          ∙ slots_of_day-filled n fuel d day_end limit (start + d) busy
              (with_slot start (start + d) busy cs) (omega arith) fits.1 (omega arith) m'
          ∙ ap ok (
              filled-with_slot limit d start busy cs (keep (is_free busy) (grid d (start + d) n))
                (ground arith))
      | inr full ↦
          slots_of_day_stop fuel d day_end limit start busy cs m (ground arith)
          ∙ ap ok (
              sym
                (filled_full limit cs (keep (is_free busy) (grid d start (suc n))) (ground arith)))
    ]

-- The number of slots that fit is a quotient.
pub Fits-div : (n d day_end start : ℕ) → 0 < d → (day_end - start) / d ≡ n → Fits d day_end n start
Fits-div zero d day_end start h e = grind arith
Fits-div (suc n) d day_end start h e = elim (Bool-cases (leb d (day_end - start))) [
  | inl le ↦
      let one_less = div-eq-sub-div {m = d} {n = day_end - start} h (ground arith) in
      let rest : day_end - start - d ≡ day_end - (start + d) = omega arith in
      (ground arith, Fits-div n d day_end (start + d) h (ap (λ x. x / d) (sym rest) ∙ omega arith))
  | inr lt ↦
      let none_fit = div-eq_of_lt {n = day_end - start} {m = d} (ground arith) in
      absurd (omega arith)
]
