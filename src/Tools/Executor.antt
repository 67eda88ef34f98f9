-- ===== src/Tools/Executor.antt =====
-- src/openvoice/agent/tools/booking.py: the executor that runs one tool call.
use open_voice.Base.{
  ℕ, zero, Bool, true, false, Option, none, some, List, [], ◌∷◌, ◌++◌, map, ◌==◌, if◌then◌else◌,
}
use open_voice.Base.Text.{Text, codes, text_eq}
use open_voice.Base.Time.{ℤ, pos}
use open_voice.Base.Result.{Error, Result, ok, err, Exec, pure, gets, ◌>>=◌}
use open_voice.Base.Json.{Json, Items, Fields}
use open_voice.Llm.{ToolCall}
use open_voice.Db.{Appointment, AppointmentStatus, Client, find_client, find_appointment}
use open_voice.Booking.{TimeSlot}
use open_voice.Booking.Service.{World, list_upcoming}
use open_voice.Booking.Service.Actions.{
  find_available_slots, book_appointment, cancel_appointment, reschedule_appointment,
}
use open_voice.Tools.{BookAppointmentArgs, valid, invalid, Binding, aware_only}

-- the text for the model, and whether it is an error
abbrev pub Answer : Type 0
Answer = Text × Bool

abbrev pub invalid_arguments : Text → Answer
invalid_arguments why = (codes "Invalid arguments: " ++ why, true)

-- `args.search_days or 7`
abbrev pub search_days_or_default : Option ℤ → ℤ
search_days_or_default none = pos 7
search_days_or_default (some (pos zero)) = pos 7
search_days_or_default (some n) = n

-- `AppointmentStatus.value`
abbrev pub status_value : AppointmentStatus → Text
status_value AppointmentStatus.scheduled = codes "scheduled"
status_value AppointmentStatus.confirmed = codes "confirmed"
status_value AppointmentStatus.cancelled = codes "cancelled"
status_value AppointmentStatus.rescheduled = codes "rescheduled"
status_value AppointmentStatus.completed = codes "completed"

abbrev pub items : List Json → Items
items [] = Items.nil
items (j ∷ js) = Items.cons j (items js)

-- The exceptions that `execute` turns into an answer.
abbrev pub is_caught : Error → Bool
is_caught (Error.booking_error why) = true
is_caught (Error.calendar_error why) = true
is_caught (Error.notification_error why) = true
is_caught e = false

module _ (b : Binding) where
  abbrev pub parse_datetime : Text → Option ℕ
  parse_datetime raw = aware_only (b.libraries.fromisoformat raw)

  abbrev pub slot_json : TimeSlot → Json
  slot_json t = Json.object (
      Fields.field (codes "start") (Json.string (b.service.isoformat t.start))
        (Fields.field (codes "end") (Json.string (b.service.isoformat t.end)) Fields.end))

  abbrev pub appointment_json : Appointment → Json
  appointment_json a = Json.object (
      Fields.field (codes "appointment_id") (Json.string (b.libraries.print_uuid a.id)) (
        Fields.field (codes "start") (Json.string (b.service.isoformat a.starts_at)) (
          Fields.field (codes "end") (Json.string (b.service.isoformat a.ends_at))
            (Fields.field (codes "status") (Json.string (status_value a.status)) Fields.end))))

  abbrev pub check_answer : List TimeSlot → Answer
  check_answer [] = (codes "No available slots found in the searched window.", false)
  check_answer slots = (b.libraries.dumps (Json.array (items (map slot_json slots))), false)

  -- `_check_availability`; `find_available_slots` gives 5 slots at most by default
  unfoldable pub check_availability : Json → Exec World Answer
  check_availability raw = elim (b.libraries.validate_check raw) [
    | invalid why ↦ pure (invalid_arguments why)
    | valid args ↦
        find_available_slots b.service b.now (search_days_or_default args.search_days)
          args.duration_minutes 5
        >>= λ slots. pure (check_answer slots)
  ]

  abbrev pub list_answer : List Appointment → Answer
  list_answer [] = (codes "No upcoming appointments.", false)
  list_answer rows = (b.libraries.dumps (Json.array (items (map appointment_json rows))), false)

  -- `_list_my_appointments`
  unfoldable pub list_my_appointments : Exec World Answer
  list_my_appointments =
      gets (λ (w : World). list_answer (list_upcoming b.client_id b.now w.db.appointments))

  -- " appointment_id=..., start=..., end=...."
  abbrev pub described : Appointment → Text
  described a =
      codes " appointment_id="
      ++ (b.libraries.print_uuid a.id
          ++ (codes ", start="
              ++ (b.service.isoformat a.starts_at
                  ++ (codes ", end=" ++ (b.service.isoformat a.ends_at ++ codes ".")))))

  abbrev pub book_found : Option Client → ℕ → ℕ → Option Text → Exec World Answer
  book_found none start end notes = pure (codes "Caller record not found.", true)
  book_found (some c) start end notes =
      book_appointment b.service c start end b.call_id notes >>= λ a.
      pure (codes "Booked." ++ described a, false)

  -- the part of `_book_appointment` that has both datetimes
  unfoldable pub book_for_client : ℕ → ℕ → Option Text → Exec World Answer
  book_for_client start end notes = do
    client ← gets (λ (w : World). find_client b.client_id w.db.clients)
    book_found client start end notes

  abbrev pub book_between : Option ℕ → Option ℕ → Option Text → Exec World Answer
  book_between (some start) (some end) notes = book_for_client start end notes
  book_between _ _ notes =
      pure (codes "Invalid start/end: must be timezone-aware ISO 8601 datetimes.", true)

  unfoldable pub book_confirmed : BookAppointmentArgs → Exec World Answer
  book_confirmed args =
      if args.caller_confirmed
      then book_between (parse_datetime args.start) (parse_datetime args.end) args.notes
      else pure (
        codes
            "Not booked: you must say the exact date and time out loud and get the caller's explicit confirmation before calling this tool with caller_confirmed set to true.",
        true,
      )

  -- `_book_appointment`
  unfoldable pub book_tool : Json → Exec World Answer
  book_tool raw = elim (b.libraries.validate_book raw) [
    | invalid why ↦ pure (invalid_arguments why)
    | valid args ↦ book_confirmed args
  ]

  abbrev pub only_own : Option Appointment → Option Appointment
  only_own none = none
  only_own (some a) = if a.client_id == b.client_id then some a else none

  -- `_get_owned_appointment`
  unfoldable pub get_owned_appointment : Text → List Appointment → Option Appointment
  get_owned_appointment raw rows = elim (b.libraries.parse_uuid raw) [
    | none ↦ none
    | some id ↦ only_own (find_appointment id rows)
  ]

  abbrev pub no_such : Answer
  no_such = (codes "No such appointment for this caller.", true)

  abbrev pub cancel_found : Option Appointment → Exec World Answer
  cancel_found none = pure no_such
  cancel_found (some a) = cancel_appointment b.service a >>= λ _.
      pure (codes "Cancelled appointment " ++ (b.libraries.print_uuid a.id ++ codes "."), false)

  unfoldable pub cancel_owned : Text → Exec World Answer
  cancel_owned raw = do
    owned ← gets (λ (w : World). get_owned_appointment raw w.db.appointments)
    cancel_found owned

  -- `_cancel_appointment`
  unfoldable pub cancel_tool : Json → Exec World Answer
  cancel_tool raw = elim (b.libraries.validate_id raw) [
    | invalid why ↦ pure (invalid_arguments why)
    | valid args ↦
        if args.caller_confirmed
        then cancel_owned args.appointment_id
        else pure (
          codes
              "Not cancelled: get the caller's explicit confirmation before calling this tool with caller_confirmed set to true.",
          true,
        )
  ]

  abbrev pub reschedule_found : Option Appointment → ℕ → ℕ → Exec World Answer
  reschedule_found none new_start new_end = pure no_such
  reschedule_found (some a) new_start new_end =
      reschedule_appointment b.service a new_start new_end >>= λ updated.
      pure (codes "Rescheduled." ++ described updated, false)

  unfoldable pub reschedule_owned : Text → ℕ → ℕ → Exec World Answer
  reschedule_owned raw new_start new_end = do
    owned ← gets (λ (w : World). get_owned_appointment raw w.db.appointments)
    reschedule_found owned new_start new_end

  abbrev pub reschedule_between : Text → Option ℕ → Option ℕ → Exec World Answer
  reschedule_between raw (some new_start) (some new_end) = reschedule_owned raw new_start new_end
  reschedule_between raw _ _ =
      pure (codes "Invalid new_start/new_end: must be timezone-aware ISO 8601 datetimes.", true)

  -- `_reschedule_appointment`
  unfoldable pub reschedule_tool : Json → Exec World Answer
  reschedule_tool raw = elim (b.libraries.validate_reschedule raw) [
    | invalid why ↦ pure (invalid_arguments why)
    | valid args ↦
        if args.caller_confirmed
        then reschedule_between args.appointment_id (parse_datetime args.new_start)
            (parse_datetime args.new_end)
        else pure (
          codes
              "Not rescheduled: get the caller's explicit confirmation before calling this tool with caller_confirmed set to true.",
          true,
        )
  ]

  unfoldable pub dispatch : ToolCall → Exec World Answer
  dispatch call =
      if text_eq call.name (codes "check_availability")
      then check_availability (Json.object call.arguments)
      else if text_eq call.name (codes "list_my_appointments")
      then list_my_appointments
      else if text_eq call.name (codes "book_appointment")
      then book_tool (Json.object call.arguments)
      else if text_eq call.name (codes "cancel_appointment")
      then cancel_tool (Json.object call.arguments)
      else if text_eq call.name (codes "reschedule_appointment")
      then reschedule_tool (Json.object call.arguments)
      else pure (codes "Unknown tool: " ++ call.name, true)

  abbrev pub answer_errors : Result Answer → Result Answer
  answer_errors (ok a) = ok a
  answer_errors (err e) =
      if is_caught e
      then ok (codes "Could not complete this action: " ++ b.libraries.print_error e, true)
      else err e

  -- `execute`, the function that `make_booking_tool_executor` returns
  unfoldable pub execute : ToolCall → Exec World Answer
  execute call w = let (r, w') = dispatch call w in (answer_errors r, w')
