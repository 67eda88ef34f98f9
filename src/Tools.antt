-- ===== src/Tools.antt =====
-- src/openvoice/agent/tools: the booking tools that the model may call. Pydantic's validation, the
-- parsers of identifiers and dates and the printers are libraries, and parameters here.
pub mod Executor
pub mod Definitions
pub mod Guards
mod Tests
use open_voice.Base.{ℕ, Bool, true, false, Option, none, some, List, [], ◌∷◌}
use open_voice.Base.Text.{Text, codes}
use open_voice.Base.Time.{ℤ}
use open_voice.Base.Result.{Error}
use open_voice.Base.Json.{Json}
use open_voice.Booking.Service.{Service}

-- `_CheckAvailabilityArgs`
pub record CheckAvailabilityArgs : Type 0 where
  pub duration_minutes : Option ℤ
  pub search_days : Option ℤ

-- `_BookAppointmentArgs`
pub record BookAppointmentArgs : Type 0 where
  pub start : Text
  pub end : Text
  pub notes : Option Text
  pub caller_confirmed : Bool

-- `_AppointmentIdArgs`
pub record AppointmentIdArgs : Type 0 where
  pub appointment_id : Text
  pub caller_confirmed : Bool

-- `_RescheduleAppointmentArgs`
pub record RescheduleAppointmentArgs : Type 0 where
  pub appointment_id : Text
  pub new_start : Text
  pub new_end : Text
  pub caller_confirmed : Bool

-- What `model_validate` gives: the arguments, or the text of the `ValidationError`.
pub data Validated (A : Type 0) : Type 0 where
  valid : A → Validated A
  invalid : Text → Validated A

-- What `datetime.fromisoformat` gives where it does not raise a `ValueError`.
pub data Datetime : Type 0 where
  aware : ℕ → Datetime
  naive : ℕ → Datetime

-- The libraries that the tools use.
pub record Libraries : Type 0 where
  pub validate_check : Json → Validated CheckAvailabilityArgs
  pub validate_book : Json → Validated BookAppointmentArgs
  pub validate_id : Json → Validated AppointmentIdArgs
  pub validate_reschedule : Json → Validated RescheduleAppointmentArgs
  pub fromisoformat : Text → Option Datetime
  -- `uuid.UUID(raw)`, and `str` of a key
  pub parse_uuid : Text → Option ℕ
  pub print_uuid : ℕ → Text
  pub dumps : Json → Text
  -- `str(exc)`
  pub print_error : Error → Text

-- What the executor of one call is bound to.
pub record Binding : Type 0 where
  pub service : Service
  pub libraries : Libraries
  pub client_id : ℕ
  pub call_id : Option ℕ
  -- `datetime.now(UTC)`
  pub now : ℕ

-- `_parse_datetime`: a naive datetime is refused
abbrev pub aware_only : Option Datetime → Option ℕ
aware_only none = none
aware_only (some (aware t)) = some t
aware_only (some (naive t)) = none
