-- ===== src/Tools/Guards.antt =====
-- What the executor of src/openvoice/agent/tools/booking.py never does: act without the caller's
-- confirmation, touch another client's appointment, or let an error of the service escape.
pub mod Confirmed
pub mod Rows
pub mod Keeps
pub mod Calls
pub mod Ownership
use open_voice.Base.{
  ℕ, ◌≡◌, ◌≢◌, refl, Bool, true, false, arith, Bool-cases, inl, inr, if◌then◌else◌,
}
use open_voice.Base.Text.{Text, codes}
use open_voice.Base.Result.{Error, Result, ok, err, Exec}
use open_voice.Llm.{ToolCall}
use open_voice.Booking.Service.{World}
use open_voice.Tools.{Binding}
use open_voice.Tools.Executor.{Answer, is_caught, dispatch, answer_errors, execute}

-- What holds of the world after either branch holds of it after the conditional.
pub choose :
    {A : Type 0} (P : World → Type 0) (c : Bool) (m n : Exec World A) (w : World)
    → (c ≡ true → P (m w).1)
    → (c ≡ false → P (n w).1)
    → P ((if c then m else n) w).1
choose P true m n w h k = h refl
choose P false m n w h k = k refl

caught_lem :
    (b : Binding) (r : Result Answer) (e : Error) → is_caught e ≡ true → answer_errors b r ≢ err e
caught_lem b (ok a) e h = cc
caught_lem b (err e') e h = ground arith

-- No `BookingError`, `CalendarError` or `NotificationError` comes out of the executor, whatever
-- the call and the services do.
pub execute-catches :
    (b : Binding) (call : ToolCall) (w : World) (e : Error)
    → is_caught e ≡ true
    → (execute b call w).0 ≢ err e
unfolding execute
execute-catches b call w e h = caught_lem b (dispatch b call w).0 e h
