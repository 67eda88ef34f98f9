-- ===== src/Base/Time.antt =====
-- Python's `datetime` and `timedelta`. An instant is the number of microseconds since
-- `datetime.min`, 0001-01-01T00:00:00, of an aware datetime in UTC, which is the zone of every
-- datetime that the program does arithmetic on.
use Prim.Native.Nat.{ℕ, suc, ◌+◌, ◌-◌, ◌*◌, ◌/◌, ◌%◌, ◌≤◌}
use mathlib.Core.Path.{◌≡◌}
use native.Mathlib.Omega.{arith}
use open_voice.Base.Tests.{leb, ltb, if◌then◌else◌}
use open_voice.Base.Result.{Error, Result, ok, err}

-- Python's `int`; `negsuc n` is -(n + 1).
pub data ℤ : Type 0 where
  pos : ℕ → ℤ
  negsuc : ℕ → ℤ

abbrev pub minute : ℕ
minute = 60000000

abbrev pub hour : ℕ
hour = 3600000000

abbrev pub day_length : ℕ
day_length = 86400000000

-- `datetime.max`, 9999-12-31T23:59:59.999999
abbrev pub datetime_max : ℕ
datetime_max = 315537897599999999

-- `timedelta(minutes=m)` and `timedelta(days=n)` in microseconds: a `timedelta` has at most
-- 999999999 days either way.
unfoldable pub minutes : ℤ → Result ℤ
minutes (pos m) =
    if leb (m / 1440) 999999999 then ok (pos (m * minute)) else err Error.overflow_error
minutes (negsuc m) =
    if leb ((m + 1440) / 1440) 999999999
    then ok (negsuc ((m + 1) * minute - 1))
    else err Error.overflow_error

unfoldable pub days : ℤ → Result ℤ
days (pos n) = if leb n 999999999 then ok (pos (n * day_length)) else err Error.overflow_error
days (negsuc n) =
    if leb (n + 1) 999999999
    then ok (negsuc ((n + 1) * day_length - 1))
    else err Error.overflow_error

-- `t + delta`
unfoldable pub add_time : ℕ → ℤ → Result ℕ
add_time t (pos d) = if leb (t + d) datetime_max then ok (t + d) else err Error.overflow_error
add_time t (negsuc d) = if leb (d + 1) t then ok (t - (d + 1)) else err Error.overflow_error

-- `t.replace(hour=h, minute=0, second=0, microsecond=0)`
unfoldable pub replace_time : ℕ → ℕ → Result ℕ
replace_time h t =
    if ltb h 24 then ok (t / day_length * day_length + h * hour) else err Error.value_error

-- `t.replace(hour=h, minute=0)`: the seconds and microseconds stay.
unfoldable pub replace_hour : ℕ → ℕ → Result ℕ
replace_hour h t =
    if ltb h 24
    then ok (t / day_length * day_length + h * hour + t % minute)
    else err Error.value_error

pub add_time_pos : (t d : ℕ) → t + d ≤ datetime_max → add_time t (pos d) ≡ ok (t + d)
unfolding add_time
add_time_pos t d h = ground arith

-- At a whole hour of day `n`.
pub replace_time_at :
    (h n x : ℕ)
    → suc h ≤ 24
    → x / day_length ≡ n
    → replace_time h x ≡ ok (n * day_length + h * hour)
unfolding replace_time
replace_time_at h n x lt e = ground arith

pub whole_hour :
    (h n : ℕ)
    → suc h ≤ 24
    → ((n * day_length + h * hour) / day_length ≡ n) × ((n * day_length + h * hour) % minute ≡ 0)
whole_hour h n lt = (omega arith, omega arith)

pub replace_hour_at :
    (h k n : ℕ)
    → suc h ≤ 24
    → suc k ≤ 24
    → replace_hour k (n * day_length + h * hour) ≡ ok (n * day_length + k * hour)
unfolding replace_hour
replace_hour_at h k n lt kt = let (d, m) = whole_hour h n lt in ground (arith, d, m)
