-- ===== src/Services.antt =====
-- What a process is put together from, by its settings: `get_booking_service` of
-- src/openvoice/api/dependencies.py, `_build_booking_tools` of src/openvoice/telephony/worker.py and the prompts
-- of src/openvoice/agent/prompts.py.
pub mod Line
pub mod Prompts
pub mod Entrypoint
pub mod Started
pub mod Ready
pub mod Models
pub mod Finished
mod Tests
use open_voice.Base.{ℕ, ◌≡◌, Option, none, some, List, [], ◌∷◌, ◌++◌, Bool, true, false, is_some}
use open_voice.Base.Text.{Text, codes}
use open_voice.Base.Result.{Error, Result, ok, err, Exec, then_ok}
use open_voice.Llm.{ToolDefinition, ToolCall}
use open_voice.Config.{Settings}
use open_voice.Config.Factories.{
  Packages, LlmConfig, GoogleConfig, TwilioConfig, ResendConfig, get_calendar_provider,
  get_sms_provider, get_email_provider, get_llm_provider,
}
use open_voice.Conversation.{Conversation, Arguments, new_conversation}
use open_voice.Booking.{Hours}
use open_voice.Booking.Service.{Calendar, Message, Service, World}
use open_voice.Tools.{Libraries, Binding}
use open_voice.Tools.Executor.{Answer, execute}
use open_voice.Tools.Definitions.{booking_tool_definitions}

-- What the constructors of the providers make of their arguments, and the formats of `datetime`.
pub record Clients : Type 0 where
  pub google : GoogleConfig → Calendar
  pub twilio : TwilioConfig → List Message → Message → Result (Unit {0})
  pub resend : ResendConfig → List Message → Message → Result (Unit {0})
  pub strftime : ℕ → Text
  pub isoformat : ℕ → Text

-- `try: ... except RuntimeError: None`
abbrev pub optional_provider : {A : Type 0} → Result A → Result (Option A)
optional_provider (ok a) = ok (some a)
optional_provider (err Error.runtime_error) = ok none
optional_provider (err e) = err e

abbrev pub hours_of : Settings → Hours
hours_of settings = record {
  business_hours_start = settings.booking_business_hours_start;
  business_hours_end = settings.booking_business_hours_end;
  default_duration_minutes = settings.booking_default_duration_minutes;
}

abbrev pub map_option : {A B : Type 0} → (A → B) → Option A → Option B
map_option f none = none
map_option f (some a) = some (f a)

-- `BookingService(...)`
abbrev pub service_of :
    Clients → Settings → GoogleConfig → Option TwilioConfig → Option ResendConfig → Service
service_of clients settings google twilio resend = record {
  calendar = clients.google google;
  sms = map_option clients.twilio twilio;
  email = map_option clients.resend resend;
  hours = hours_of settings;
  strftime = clients.strftime;
  isoformat = clients.isoformat;
}

-- the part behind the calendar
abbrev pub service_with : Clients → Settings → GoogleConfig → Result Service
service_with clients settings google =
    then_ok (optional_provider (get_sms_provider settings)) λ twilio.
      then_ok (optional_provider (get_email_provider settings))
        λ resend. ok (service_of clients settings google twilio resend)

-- `get_booking_service`
unfoldable pub get_booking_service : Packages → Clients → Settings → Result Service
get_booking_service packages clients settings =
    then_ok (get_calendar_provider packages settings) (service_with clients settings)

-- The executor as a call holds it: everything but the instant of a tool call is bound.
pub record BookingTools : Type 0 where
  pub definitions : List ToolDefinition
  pub executor : ℕ → ToolCall → Exec World Answer

abbrev pub bound : Libraries → ℕ → ℕ → Service → BookingTools
bound libraries client_id call_id service = record {
  definitions = booking_tool_definitions;
  executor = λ now. execute (record {
    service = service;
    libraries = libraries;
    client_id = client_id;
    call_id = some call_id;
    now = now;
  });
}

-- the calendar's factory raised
abbrev pub without_calendar : Error → Result (Option BookingTools)
without_calendar (Error.calendar_error why) = ok none
without_calendar e = err e

-- `_build_booking_tools`
abbrev pub tools_with :
    Libraries → Clients → Settings → ℕ → ℕ → Result GoogleConfig → Result (Option BookingTools)
tools_with libraries clients settings client_id call_id (err e) = without_calendar e
tools_with libraries clients settings client_id call_id (ok google) =
    then_ok (service_with clients settings google)
      λ service. ok (some (bound libraries client_id call_id service))

unfoldable pub build_booking_tools :
    Packages → Libraries → Clients → Settings → ℕ → ℕ → Result (Option BookingTools)
build_booking_tools packages libraries clients settings client_id call_id =
    tools_with libraries clients settings client_id call_id
      (get_calendar_provider packages settings)

-- `client_id is not None`
unfoldable pub tools_for :
    Packages → Libraries → Clients → Settings → Option ℕ → ℕ → Result (Option BookingTools)
tools_for packages libraries clients settings none call_id = ok none
tools_for packages libraries clients settings (some client_id) call_id =
    build_booking_tools packages libraries clients settings client_id call_id
