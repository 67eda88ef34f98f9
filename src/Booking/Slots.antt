-- ===== src/Booking/Slots.antt =====
-- `find_available_slots` of src/openvoice/booking/service.py. The calendar's busy slots are an
-- argument here; `Service` reads them.
mod Filled
pub mod Grid
pub mod Days
pub mod Proposed
use open_voice.Base.{
  ℕ, zero, suc, ◌+◌, ◌/◌, Bool, true, false, ◌&&◌, Option, none, some, List, [], ◌∷◌, ◌++◌, length,
  any, ltb, leb, if◌then◌else◌,
}
use open_voice.Base.Time.{
  ℤ, pos, negsuc, minute, day_length, minutes, days, add_time, replace_time, replace_hour,
}
use open_voice.Base.Result.{Error, Result, ok, err, then_ok}
use open_voice.Booking.{TimeSlot, Hours}

-- `_overlaps_any`
abbrev pub overlaps_any : ℕ → ℕ → List TimeSlot → Bool
overlaps_any start end busy = any (λ slot. ltb start slot.end && ltb slot.start end) busy

-- `duration_minutes or self._default_duration_minutes`
abbrev pub duration_or_default : Option ℤ → ℕ → ℤ
duration_or_default none default = pos default
duration_or_default (some (pos zero)) default = pos default
duration_or_default (some m) default = m

abbrev pub with_slot : ℕ → ℕ → List TimeSlot → List TimeSlot → List TimeSlot
with_slot start end busy candidates =
    if overlaps_any start end busy
    then candidates
    else candidates ++ record { start = start; end = end } ∷ []

-- The inner loop, on fuel.
unfoldable pub slots_of_day :
    ℕ → ℤ → List TimeSlot → ℕ → ℕ → ℕ → List TimeSlot → Result (List TimeSlot)
slots_of_day zero duration busy day_end max_results slot_start candidates = err Error.out_of_fuel
slots_of_day (suc fuel) duration busy day_end max_results slot_start candidates =
    then_ok (add_time slot_start duration) λ slot_end.
      elim (leb slot_end day_end && ltb (length candidates) max_results) [
        | false ↦ ok candidates
        | true ↦
            slots_of_day fuel duration busy day_end max_results slot_end
              (with_slot slot_start slot_end busy candidates)
      ]

-- Enough for any duration but 0: a positive one is at least a minute, and so has at most 1440 slots
-- in a day; a negative one takes at least a minute off `slot_start` each time, until it is below
-- `datetime.min`.
abbrev pub slot_fuel : ℕ → ℕ
slot_fuel slot_start = slot_start / minute + 1442

-- The outer loop, on fuel.
unfoldable pub slots_from :
    ℕ → Hours → ℤ → List TimeSlot → ℕ → ℕ → ℕ → List TimeSlot → Result (List TimeSlot)
slots_from zero hours duration busy search_until max_results day candidates = err Error.out_of_fuel
slots_from (suc fuel) hours duration busy search_until max_results day candidates =
    elim (ltb day search_until && ltb (length candidates) max_results) [
      | false ↦ ok candidates
      | true ↦ then_ok (replace_hour hours.business_hours_end day) λ day_end.
          then_ok (slots_of_day (slot_fuel day) duration busy day_end max_results day candidates)
            λ more. then_ok (add_time day (pos day_length)) λ next.
              then_ok (replace_time hours.business_hours_start next) λ next_day.
                slots_from fuel hours duration busy search_until max_results next_day more
    ]

-- One round for each day from `day` to `search_until`, and one to stop.
abbrev pub day_fuel : ℕ → ℕ
day_fuel search_until = search_until / day_length + 2

-- The first day whose opening hour is not before `search_from`.
unfoldable pub first_day : Hours → ℕ → Result ℕ
first_day hours search_from =
    then_ok (replace_time hours.business_hours_start search_from)
      λ day. if ltb day search_from then add_time day (pos day_length) else ok day

-- What follows the calendar's answer.
unfoldable pub propose : Hours → ℤ → List TimeSlot → ℕ → ℕ → ℕ → Result (List TimeSlot)
propose hours duration busy search_from search_until max_results =
    then_ok (first_day hours search_from)
      λ day. slots_from (day_fuel search_until) hours duration busy search_until max_results day []
