-- ===== src/Google.antt =====
-- src/openvoice/calendar/providers/google_calendar.py. Google's client, which answers with decoded JSON, is a parameter, and
-- so are the formats of `datetime`.
pub mod Busy
use open_voice.Base.{ℕ, Bool, true, false, Option, none, some, List, [], ◌∷◌, ◌++◌, if◌then◌else◌}
use open_voice.Base.Text.{Text, codes, text_eq}
use open_voice.Base.Json.{Json, Items, Fields}
use open_voice.Base.Result.{Error, Result, ok, err, then_ok}
use open_voice.Config.Factories.{GoogleConfig}
use open_voice.Booking.{TimeSlot}
use open_voice.Booking.Service.{Calendar, CalendarCall}

-- What `execute` of a request gives, after the calls before it.
pub record GoogleClient : Type 0 where
  -- of the body
  pub freebusy_query : List CalendarCall → Json → Result Json
  -- of the calendar's id and a body
  pub insert_event : List CalendarCall → Text → Json → Result Json
  -- of the calendar's id and an event's
  pub delete_event : List CalendarCall → Text → Text → Result (Unit {0})
  pub patch_event : List CalendarCall → Text → Text → Json → Result Json
  pub isoformat : ℕ → Text
  -- of a text with its zone, as Google writes them
  pub fromisoformat : Text → Result ℕ
  -- `str(exc)`
  pub print_error : Error → Text

abbrev pub key_error : Error
key_error = Error.other (codes "KeyError")

abbrev pub type_error : Error
type_error = Error.other (codes "TypeError")

abbrev pub lookup : Text → Fields → Result Json
lookup key Fields.end = err key_error
lookup key (Fields.field name j fields) = if text_eq name key then ok j else lookup key fields

-- `j[key]`
abbrev pub item : Text → Json → Result Json
item key (Json.object fields) = lookup key fields
item key j = err type_error

abbrev pub text_of : Json → Result Text
text_of (Json.string t) = ok t
text_of j = err type_error

abbrev pub object_of : Text → Json → Json
object_of key j = Json.object (Fields.field key j Fields.end)

module _ (client : GoogleClient) (config : GoogleConfig) where
  -- `except Exception`: the message, and what was raised
  abbrev pub or_calendar_error : {A : Type 0} → Text → Result A → Result A
  or_calendar_error what (ok a) = ok a
  or_calendar_error what (err e) = err (Error.calendar_error (what ++ client.print_error e))

  abbrev pub query_body : ℕ → ℕ → Json
  query_body start end = Json.object (
      Fields.field (codes "timeMin") (Json.string (client.isoformat start)) (
        Fields.field (codes "timeMax") (Json.string (client.isoformat end)) (
          Fields.field (codes "items")
            (Json.array
              (Items.cons (object_of (codes "id") (Json.string config.calendar_id)) Items.nil))
            Fields.end)))

  abbrev pub instant : Text → Json → Result ℕ
  instant key slot = then_ok (item key slot) λ j. then_ok (text_of j) client.fromisoformat

  -- an element of `busy`
  abbrev pub slot_of : Json → Result TimeSlot
  slot_of slot =
      then_ok (instant (codes "start") slot) λ start.
        then_ok (instant (codes "end") slot) λ end. ok (record { start = start; end = end })

  unfoldable pub slots_of : Items → Result (List TimeSlot)
  slots_of Items.nil = ok []
  slots_of (Items.cons slot slots) =
      then_ok (slot_of slot) λ t. then_ok (slots_of slots) λ ts. ok (t ∷ ts)

  abbrev pub busy_slots : Json → Result (List TimeSlot)
  busy_slots (Json.array slots) = slots_of slots
  busy_slots j = err type_error

  -- `response["calendars"][self._calendar_id]["busy"]`, and the slots of it
  abbrev pub read_busy : Json → Result (List TimeSlot)
  read_busy response = then_ok (item (codes "calendars") response) λ calendars.
      then_ok (item config.calendar_id calendars)
        λ calendar. then_ok (item (codes "busy") calendar) busy_slots

  unfoldable pub list_busy_slots : List CalendarCall → ℕ → ℕ → Result (List TimeSlot)
  list_busy_slots log start end =
      then_ok
        (or_calendar_error (codes "Google Calendar freebusy query failed: ")
          (client.freebusy_query log (query_body start end)))
        read_busy

  abbrev pub times : ℕ → ℕ → Fields
  times start end =
      Fields.field (codes "start")
        (object_of (codes "dateTime") (Json.string (client.isoformat start)))
        (Fields.field (codes "end")
          (object_of (codes "dateTime") (Json.string (client.isoformat end))) Fields.end)

  -- the id of the event that comes back
  abbrev pub event_id : Json → Result Text
  event_id event = then_ok (item (codes "id") event) text_of

  -- `create_event`: the service gives no description
  unfoldable pub create_event : List CalendarCall → ℕ → ℕ → Text → Result Text
  create_event log start end summary =
      then_ok
        (or_calendar_error (codes "Google Calendar event creation failed: ") (
          client.insert_event log config.calendar_id (
            Json.object (
              Fields.field (codes "summary") (Json.string summary)
                (Fields.field (codes "description") Json.null (times start end))))))
        event_id

  unfoldable pub cancel_event : List CalendarCall → Text → Result (Unit {0})
  cancel_event log id =
      or_calendar_error (codes "Google Calendar event cancellation failed: ")
        (client.delete_event log config.calendar_id id)

  unfoldable pub reschedule_event : List CalendarCall → Text → ℕ → ℕ → Result (Unit {0})
  reschedule_event log id start end =
      then_ok
        (or_calendar_error (codes "Google Calendar event reschedule failed: ")
          (client.patch_event log config.calendar_id id (Json.object (times start end))))
        λ event. then_ok (event_id event) λ _. ok tt

  -- `GoogleCalendarProvider`
  abbrev pub google_calendar : Calendar
  google_calendar = record {
    on_list = list_busy_slots;
    on_create = create_event;
    on_cancel = cancel_event;
    on_reschedule = reschedule_event;
  }
