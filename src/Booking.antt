-- ===== src/Booking.antt =====
-- src/openvoice/booking/service.py. The types that its parts share; the search for free slots is in
-- `Slots`, and what changes the calendar and the database in `Service`.
pub mod Slots
pub mod Service
mod Tests
use open_voice.Base.{ℕ}
use open_voice.Base.Text.{Text}

-- `TimeSlot` of src/openvoice/calendar/base.py
pub record TimeSlot : Type 0 where
  pub start : ℕ
  pub end : ℕ

-- The attributes of a `BookingService` that are numbers.
pub record Hours : Type 0 where
  pub business_hours_start : ℕ
  pub business_hours_end : ℕ
  pub default_duration_minutes : ℕ
