-- ===== src/Api.antt =====
-- The REST API: src/openvoice/api and the exception handlers of src/openvoice/main.py. FastAPI's routing and
-- validation are not modelled: a handler is a function of its checked arguments.
pub mod Appointments
pub mod Records
pub mod Health
pub mod Created
pub mod Schedule
pub mod Slots
mod Tests
use open_voice.Base.{ℕ, List, [], ◌++◌}
use open_voice.Base.Text.{Text, codes}
use open_voice.Base.Result.{Error, Result, ok, err, Exec}
use open_voice.Db.{Db}
use open_voice.Booking.Service.{Service, World}

-- A status code with a body, or with the detail of a failure.
pub data Response (A : Type 0) : Type 0 where
  replied : ℕ → A → Response A
  failed : ℕ → Text → Response A
  -- an exception that no handler is registered for
  server_error : Error → Response A

-- the exception handlers that `create_app` registers
abbrev pub handle_exception : {A : Type 0} → Error → Response A
handle_exception (Error.calendar_error why) = failed 503 (codes "Calendar unavailable: " ++ why)
handle_exception (Error.notification_error why) =
    failed 502 (codes "Notification delivery failed: " ++ why)
handle_exception (Error.booking_error why) = failed 409 why
handle_exception e = server_error e

-- what a handler's result is sent as
abbrev pub respond : {A : Type 0} → ℕ → Result A → Response A
respond status (ok a) = replied status a
respond status (err e) = handle_exception e

-- A handler, and a dependency that may raise before it runs.
abbrev pub Handler : Type 0 → Type 0
Handler A = World → Response A × World

abbrev pub run : {A : Type 0} → ℕ → Exec World A → Handler A
run status m w = let (r, w') = m w in (respond status r, w')

abbrev pub with_service : {A : Type 0} → Result Service → (Service → Handler A) → Handler A
with_service (ok s) handler w = handler s w
with_service (err e) handler w = (handle_exception e, w)

-- code that works on the database alone
abbrev pub on_db : {A : Type 0} → Exec Db A → Exec World A
on_db m w = let (r, db) = m w.db in (r, record w { db = db })
