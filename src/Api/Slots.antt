-- ===== src/Api/Slots.antt =====
-- `available_slots` of src/openvoice/api/routers/appointments.py over Google's calendar
-- (src/openvoice/calendar/providers/google_calendar.py).
mod Tests
use open_voice.Base.{
  ℕ, suc, ◌+◌, ◌*◌, ◌/◌, ◌≡◌, ◌≤◌, refl, sym, ap, subst, ◌∙◌, Bool, true, false, Option, none, some,
  List, [], ◌∷◌, arith, leb, length, All,
}
use open_voice.Base.Text.{Text}
use open_voice.Base.Time.{ℤ, pos, minute, day_length, datetime_max, minutes, days, add_time}
use open_voice.Base.Result.{Error, Result, ok, err}
use open_voice.Config.{Settings}
use open_voice.Config.Factories.{GoogleConfig}
use open_voice.Booking.{TimeSlot}
use open_voice.Booking.Slots.{duration_or_default, propose}
use open_voice.Booking.Slots.Days.{AreHours}
use open_voice.Booking.Slots.Proposed.{Apart, InHours, propose_sound}
use open_voice.Booking.Service.{Service, World}
use open_voice.Booking.Service.Actions.{find_available_slots}
use open_voice.Google.{GoogleClient, google_calendar, query_body, list_busy_slots}
use open_voice.Google.Busy.{ReadsItsFormat, answer_of, list_busy_slots-answer_of}
use open_voice.Api.{Response, replied}
use open_voice.Api.Appointments.{days_or_setting, available_slots}

minutes_lem : (m : ℕ) → m * minute ≤ datetime_max → minutes (pos m) ≡ ok (pos (m * minute))
unfolding minutes
minutes_lem m h = ground arith

days_lem : (n : ℕ) → n * day_length ≤ datetime_max → days (pos n) ≡ ok (pos (n * day_length))
unfolding days
days_lem n h = ground arith

until_lem : (t d : ℕ) → t + d ≤ datetime_max → add_time t (pos d) ≡ ok (t + d)
unfolding add_time
until_lem t d h = ground arith

-- Slots of `m` minutes from `now` on in the hours, apart from what is busy.
abbrev pub AreFree : Service → ℕ → ℕ → List TimeSlot → List TimeSlot → Type 0
AreFree s m now busy = All (λ t. InHours s.hours (m * minute) now t × All (Apart t) busy)

abbrev pub with_google : GoogleClient → GoogleConfig → Service → Service
with_google client config s = record s { calendar = google_calendar client config }

-- the search, on the answer of the calendar
found_lem :
    (s : Service) (now m n : ℕ) (busy slots : List TimeSlot) (duration_minutes : Option ℤ)
    (w : World)
    → duration_or_default duration_minutes s.hours.default_duration_minutes ≡ pos m
    → now + n * day_length + day_length + m * minute ≤ datetime_max
    → s.calendar.on_list w.calendar_log now (now + n * day_length) ≡ ok busy
    → propose s.hours (pos (m * minute)) busy now (now + n * day_length) 5 ≡ ok slots
    → (find_available_slots s now (pos n) duration_minutes 5 w).0 ≡ ok slots
unfolding find_available_slots
found_lem s now m n busy slots duration_minutes w dur fits answer proposed =
    rw
      (
        dur,
        minutes_lem m (ground arith),
        days_lem n (ground arith),
        until_lem now (n * day_length) (ground arith),
        answer,
        proposed,
      )
      refl

-- With Google's calendar, when Google answers with its busy slots and `fromisoformat` reads what is written
-- for an instant, for hours that `datetime.replace` takes, a duration of at least a minute and a search within
-- the range of `datetime`: `available_slots` answers 200 with at most 5 slots, each of the duration, within the
-- hours of a day, from now on, and sharing no instant with any of Google's busy slots.
pub available_slots-Free :
    (client : GoogleClient) (config : GoogleConfig) (s : Service) (settings : Settings)
    (now m n : ℕ) (busy : List TimeSlot) (duration_minutes search_days : Option ℤ) (w : World)
    → AreHours s.hours
    → ReadsItsFormat client config
    → duration_or_default duration_minutes s.hours.default_duration_minutes ≡ pos (suc m)
    → days_or_setting search_days settings ≡ pos n
    → now + n * day_length + day_length + suc m * minute ≤ datetime_max
    → client.freebusy_query w.calendar_log (query_body client config now (now + n * day_length))
      ≡ ok (answer_of client config busy)
    → (slots : List TimeSlot) × ((available_slots
          (ok (with_google client config s))
          settings
          now
          duration_minutes
          search_days
          w).0
        ≡ replied 200 slots)
      × (length slots ≤ 5)
      × AreFree s (suc m) now busy slots
unfolding available_slots
available_slots-Free client config s settings now m n busy duration_minutes search_days w v reads
      dur ahead fits answer =
    let (slots, proposed, few, free) =
      propose_sound s.hours v (suc m * minute) (ground arith) busy now (now + n * day_length) 5
        (omega arith) fits in
    let got =
      list_busy_slots-answer_of client config w.calendar_log now (now + n * day_length) busy reads
        answer in
    (
      slots,
      rw
          (
            ahead,
            found_lem (with_google client config s) now (suc m) n busy slots duration_minutes w dur
                fits got proposed,
          )
          refl,
      few,
      free,
    )
