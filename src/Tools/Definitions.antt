-- ===== src/Tools/Definitions.antt =====
-- `booking_tool_definitions` of src/openvoice/agent/tools/booking.py: the schemas that the model is shown, and
-- what the executor makes of any other name.
use open_voice.Base.{
  ◌≡◌, refl, ap, Bool, true, false, ◌||◌, List, [], ◌∷◌, ◌++◌, map, any, if◌then◌else◌,
}
use open_voice.Base.Text.{Text, codes, text_eq}
use open_voice.Base.Result.{ok, Exec}
use open_voice.Base.Json.{Json, Fields}
use open_voice.Llm.{ToolDefinition, ToolCall}
use open_voice.Booking.Service.{World}
use open_voice.Tools.{Binding}
use open_voice.Tools.Executor.{Answer, items, dispatch, answer_errors, execute}

abbrev pub fields : List (Text × Json) → Fields
fields [] = Fields.end
fields ((key, j) ∷ rest) = Fields.field key j (fields rest)

abbrev pub object : List (Text × Json) → Json
object entries = Json.object (fields entries)

abbrev pub iso_description : Text
iso_description = codes "Timezone-aware ISO 8601 datetime, e.g. 2026-09-01T14:00:00+02:00"

-- `{"type": type}` and `{"type": type, "description": description}`
abbrev pub bare : Text → Json
bare type = object ((codes "type", Json.string type) ∷ [])

abbrev pub described_as : Text → Text → Json
described_as type description =
    object ((codes "type", Json.string type) ∷ (codes "description", Json.string description) ∷ [])

abbrev pub parameters_of : List (Text × Json) → List Text → Json
parameters_of properties required = object (
    (codes "type", Json.string (codes "object"))
    ∷ (codes "properties", object properties)
    ∷ (codes "required", Json.array (items (map Json.string required)))
    ∷ [])

abbrev pub check_availability_definition : ToolDefinition
check_availability_definition = record {
  name = codes "check_availability";
  description = codes "Find open appointment slots within business hours.";
  parameters =
      parameters_of
        ((
          codes "duration_minutes",
          described_as (codes "integer") (codes "Desired appointment length in minutes."),
        )
          ∷ (
            codes "search_days",
            described_as (codes "integer") (codes "How many days ahead to search."),
          )
          ∷ [])
        [];
}

abbrev pub list_my_appointments_definition : ToolDefinition
list_my_appointments_definition = record {
  name = codes "list_my_appointments";
  description = codes "List the caller's upcoming (non-cancelled) appointments, with their IDs.";
  parameters = parameters_of [] [];
}

abbrev pub book_appointment_definition : ToolDefinition
book_appointment_definition = record {
  name = codes "book_appointment";
  description =
      codes
        "Book a new appointment. Only call this after the caller has explicitly confirmed the date and time out loud.";
  parameters =
      parameters_of
        ((codes "start", described_as (codes "string") iso_description)
          ∷ (codes "end", described_as (codes "string") iso_description)
          ∷ (codes "notes", described_as (codes "string") (codes "Optional note about the visit."))
          ∷ (
            codes "caller_confirmed",
            described_as (codes "boolean")
                (codes "True only if the caller just confirmed this exact booking."),
          )
          ∷ [])
        (codes "start" ∷ codes "end" ∷ codes "caller_confirmed" ∷ []);
}

abbrev pub cancel_appointment_definition : ToolDefinition
cancel_appointment_definition = record {
  name = codes "cancel_appointment";
  description =
      codes
        "Cancel an existing appointment. Call list_my_appointments first if you don't already have its ID. Only call this after the caller has explicitly confirmed the cancellation out loud.";
  parameters =
      parameters_of
        ((codes "appointment_id", bare (codes "string"))
          ∷ (
            codes "caller_confirmed",
            described_as (codes "boolean")
                (codes "True only if the caller just confirmed this cancellation."),
          )
          ∷ [])
        (codes "appointment_id" ∷ codes "caller_confirmed" ∷ []);
}

abbrev pub reschedule_appointment_definition : ToolDefinition
reschedule_appointment_definition = record {
  name = codes "reschedule_appointment";
  description =
      codes
        "Move an existing appointment to a new time. Call list_my_appointments first if you don't already have its ID. Only call this after the caller has explicitly confirmed the new date and time out loud.";
  parameters =
      parameters_of
        ((codes "appointment_id", bare (codes "string"))
          ∷ (codes "new_start", described_as (codes "string") iso_description)
          ∷ (codes "new_end", described_as (codes "string") iso_description)
          ∷ (
            codes "caller_confirmed",
            described_as (codes "boolean")
                (codes "True only if the caller just confirmed this new time."),
          )
          ∷ [])
        (codes "appointment_id"
          ∷ codes "new_start"
          ∷ codes "new_end"
          ∷ codes "caller_confirmed"
          ∷ []);
}

-- `booking_tool_definitions`
abbrev pub booking_tool_definitions : List ToolDefinition
booking_tool_definitions =
    check_availability_definition ∷ list_my_appointments_definition ∷ book_appointment_definition
    ∷ cancel_appointment_definition ∷ reschedule_appointment_definition ∷ []

-- a name that the model was shown
abbrev pub is_offered : Text → Bool
is_offered name = any (λ (d : ToolDefinition). text_eq name d.name) booking_tool_definitions

unknown_lem :
    (a b c d e : Bool) (f g h i j k : Exec World Answer)
    → (a || (b || (c || (d || (e || false))))) ≡ false
    → (if a then f else if b then g else if c then h else if d then i else if e then j else k) ≡ k
unknown_lem false false false false false f g h i j k n = refl
unknown_lem true b c d e f g h i j k n = cc
unknown_lem false true c d e f g h i j k n = cc
unknown_lem false false true d e f g h i j k n = cc
unknown_lem false false false true e f g h i j k n = cc
unknown_lem false false false false true f g h i j k n = cc

-- A call of a tool that the definitions do not offer is answered with an error that names it, and
-- leaves the world as it is.
pub execute_unknown :
    (b : Binding) (call : ToolCall) (w : World)
    → is_offered call.name ≡ false
    → execute b call w ≡ (ok (codes "Unknown tool: " ++ call.name, true), w)
unfolding execute dispatch
execute_unknown b call w h =
    ap (λ (m : Exec World Answer). (answer_errors b (m w).0, (m w).1))
      (unknown_lem (text_eq call.name (codes "check_availability"))
        (text_eq call.name (codes "list_my_appointments"))
        (text_eq call.name (codes "book_appointment"))
        (text_eq call.name (codes "cancel_appointment"))
        (text_eq call.name (codes "reschedule_appointment")) _ _ _ _ _ _ h)
