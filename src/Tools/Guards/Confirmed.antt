-- ===== src/Tools/Guards/Confirmed.antt =====
-- The confirmation that src/openvoice/agent/tools/booking.py asks for.
use open_voice.Base.{
  ℕ, ◌≡◌, refl, ap, ◌⊎◌, inl, inr, Bool, true, false, not, ◌&&◌, ◌||◌, Option, List, [], ◌∷◌, ◌++◌,
  arith, is_some, keep,
}
use open_voice.Base.Text.{Text, codes, text_eq}
use open_voice.Base.Time.{ℤ}
use open_voice.Base.Result.{Result, ok, err, pure, ◌>>=◌}
use open_voice.Base.Json.{Json}
use open_voice.Llm.{ToolCall}
use open_voice.Booking.{TimeSlot}
use open_voice.Booking.Service.{Service, World, CalendarCall}
use open_voice.Booking.Service.Actions.{find_available_slots}
use open_voice.Tools.{Validated, valid, invalid, Binding}
use open_voice.Tools.Guards.{choose}
use open_voice.Tools.Executor.{
  parse_datetime, check_answer, check_availability, list_my_appointments, book_confirmed, book_tool,
  cancel_tool, reschedule_tool, dispatch, execute,
}

-- A question to the calendar that changes nothing there.
abbrev pub is_read : CalendarCall → Bool
is_read (CalendarCall.list_busy_slots start end) = true
is_read call = false

-- The calls that may change the calendar.
abbrev pub writes : List CalendarCall → List CalendarCall
writes log = keep (λ call. not (is_read call)) log

-- The database, what was sent and the calls that may change the calendar are as they were.
pub record Untouched (before after : World) : Type 0 where
  pub db : after.db ≡ before.db
  pub outbox : after.outbox ≡ before.outbox
  pub writes_same : writes after.calendar_log ≡ writes before.calendar_log

same-Untouched : (w v : World) → v ≡ w → Untouched w v
same-Untouched w v h = record {
  db = ap (λ (u : World). u.db) h;
  outbox = ap (λ (u : World). u.outbox) h;
  writes_same = ap (λ (u : World). writes u.calendar_log) h;
}

writes_read :
    (log : List CalendarCall) (start end : ℕ)
    → writes (log ++ CalendarCall.list_busy_slots start end ∷ []) ≡ writes log
writes_read [] start end = refl
writes_read (call ∷ log) start end = ground (arith, writes_read log start end)

module _ (s : Service) (search_from : ℕ) (search_days : ℤ) (duration : Option ℤ) (limit : ℕ)
    (w : World) where
  slots_db : (find_available_slots s search_from search_days duration limit w).1.db ≡ w.db
  unfolding find_available_slots
  slots_db = ground arith

  slots_outbox :
      (find_available_slots s search_from search_days duration limit w).1.outbox ≡ w.outbox
  unfolding find_available_slots
  slots_outbox = ground arith

  slots_writes :
      writes (find_available_slots s search_from search_days duration limit w).1.calendar_log
      ≡ writes w.calendar_log
  unfolding find_available_slots
  slots_writes = grind (arith, writes_read)

pub Validated-cases :
    {A : Type 0} (v : Validated A)
    → ((why : Text) × (v ≡ invalid why)) ⊎ ((args : A) × (v ≡ valid args))
Validated-cases (invalid why) = inl (why, refl)
Validated-cases (valid args) = inr (args, refl)

module _ (b : Binding) where
  -- The arguments of a mutating tool with the caller's confirmation and aware datetimes.
  abbrev pub book_confirms : Json → Bool
  book_confirms raw = elim (b.libraries.validate_book raw) [
    | invalid why ↦ false
    | valid args ↦
        args.caller_confirmed
        && (is_some (parse_datetime b args.start) && is_some (parse_datetime b args.end))
  ]

  abbrev pub cancel_confirms : Json → Bool
  cancel_confirms raw = elim (b.libraries.validate_id raw) [
    | invalid why ↦ false
    | valid args ↦ args.caller_confirmed
  ]

  abbrev pub reschedule_confirms : Json → Bool
  reschedule_confirms raw = elim (b.libraries.validate_reschedule raw) [
    | invalid why ↦ false
    | valid args ↦
        args.caller_confirmed
        && (is_some (parse_datetime b args.new_start) && is_some (parse_datetime b args.new_end))
  ]

  book_lem : (raw : Json) (w : World) → book_confirms raw ≡ false → (book_tool b raw w).1 ≡ w
  unfolding book_tool book_confirmed
  book_lem raw w h = ground arith

  cancel_lem : (raw : Json) (w : World) → cancel_confirms raw ≡ false → (cancel_tool b raw w).1 ≡ w
  unfolding cancel_tool
  cancel_lem raw w h = ground arith

  reschedule_lem :
      (raw : Json) (w : World) → reschedule_confirms raw ≡ false → (reschedule_tool b raw w).1 ≡ w
  unfolding reschedule_tool
  reschedule_lem raw w h = ground arith

  after_slots :
      (w : World) (r : Result (List TimeSlot)) (v : World)
      → Untouched w v
      → Untouched w (((λ (_ : World). (r, v)) >>= λ slots. pure (check_answer b slots)) w).1
  after_slots w (ok slots) v h = h
  after_slots w (err e) v h = h

  pub check_lem : (raw : Json) (w : World) → Untouched w (check_availability b raw w).1
  unfolding check_availability
  check_lem raw w = elim (Validated-cases (b.libraries.validate_check raw)) [
    | inl (why, h) ↦ rw (h, check_availability) (same-Untouched w w refl)
    | inr (args, h) ↦
        rw (h, check_availability)
          (after_slots w _ _ (record {
            db = slots_db _ _ _ _ _ w;
            outbox = slots_outbox _ _ _ _ _ w;
            writes_same = slots_writes _ _ _ _ _ w;
          }))
  ]

  pub list_lem : (w : World) → (list_my_appointments b w).1 ≡ w
  unfolding list_my_appointments
  list_lem w = refl

  -- The calls that the caller has confirmed, of the tools that change something.
  abbrev pub confirms : ToolCall → Bool
  confirms call =
      text_eq call.name (codes "book_appointment") && book_confirms (Json.object call.arguments)
      || (text_eq call.name (codes "cancel_appointment")
            && cancel_confirms (Json.object call.arguments)
          || text_eq call.name (codes "reschedule_appointment")
            && reschedule_confirms (Json.object call.arguments))

  -- A call that is not a confirmed one, of whatever tool and with whatever arguments, leaves the
  -- database as it is, sends nothing and asks the calendar for nothing but busy slots.
  pub execute_unconfirmed :
      (call : ToolCall) (w : World) → confirms call ≡ false → Untouched w (execute b call w).1
  unfolding execute dispatch
  execute_unconfirmed call w h =
      choose (Untouched w) (text_eq call.name (codes "check_availability")) _ _ w
        (λ _. check_lem (Json.object call.arguments) w)
        (λ _.
          choose (Untouched w) (text_eq call.name (codes "list_my_appointments")) _ _ w
            (λ _. same-Untouched w _ (list_lem w))
            (λ _.
              choose (Untouched w) (text_eq call.name (codes "book_appointment")) _ _ w
                (λ is. same-Untouched w _ (book_lem (Json.object call.arguments) w (ground arith)))
                (λ _.
                  choose (Untouched w) (text_eq call.name (codes "cancel_appointment")) _ _ w
                    (λ is.
                      same-Untouched w _ (cancel_lem (Json.object call.arguments) w (ground arith)))
                    (λ _.
                      choose (Untouched w) (text_eq call.name (codes "reschedule_appointment")) _ _
                        w
                        (λ is.
                          same-Untouched w _
                            (reschedule_lem (Json.object call.arguments) w (ground arith)))
                        (λ _. same-Untouched w w refl)))))
