-- ===== src/Tools/Guards/Keeps.antt =====
-- What the service's methods keep for the caller that an executor of src/openvoice/agent/tools/booking.py is bound to, the
-- executor keeps.
use open_voice.Base.{
  ℕ, ◌≡◌, refl, sym, ap, subst, inl, inr, Option, none, some, arith, Bool-cases, Option-cases, ◌==◌,
}
use open_voice.Base.Text.{Text, codes, text_eq}
use open_voice.Base.Result.{Result, pure, ◌>>=◌}
use open_voice.Base.Json.{Json}
use open_voice.Llm.{ToolCall}
use open_voice.Db.{Appointment, Client, find_client, find_appointment}
use open_voice.Booking.Service.{World}
use open_voice.Booking.Service.Actions.{
  book_appointment, cancel_appointment, reschedule_appointment,
}
use open_voice.Tools.{Binding}
use open_voice.Tools.Guards.{choose}
use open_voice.Tools.Guards.Confirmed.{Validated-cases, check_lem, list_lem}
use open_voice.Tools.Executor.{
  Answer, parse_datetime, only_own, get_owned_appointment, book_found, cancel_found,
  reschedule_found, book_for_client, book_between, book_confirmed, book_tool, cancel_owned,
  cancel_tool, reschedule_owned, reschedule_between, reschedule_tool, dispatch, execute,
}
use open_voice.Tools.Guards.Rows.{find_appointment_id, then_pure}

-- What holds between the worlds before and after each method that the tools call, with what they have found.
pub record Keeps (b : Binding) (K : World → World → Type 0) : Type 0 where
  pub on_same : (w v : World) → v.db ≡ w.db → K w v
  pub on_book :
      (w : World) (c : Client) (start end : ℕ) (notes : Option Text)
      → find_client b.client_id w.db.clients ≡ some c
      → K w (book_appointment b.service c start end b.call_id notes w).1
  pub on_cancel :
      (w : World) (a : Appointment)
      → find_appointment a.id w.db.appointments ≡ some a
      → a.client_id ≡ b.client_id
      → K w (cancel_appointment b.service a w).1
  pub on_move :
      (w : World) (a : Appointment) (new_start new_end : ℕ)
      → find_appointment a.id w.db.appointments ≡ some a
      → a.client_id ≡ b.client_id
      → K w (reschedule_appointment b.service a new_start new_end w).1

module _ (b : Binding) (w : World) where
  from_own :
      (id : ℕ) (found : Option Appointment) (a : Appointment)
      → find_appointment id w.db.appointments ≡ found
      → only_own b found ≡ some a
      → (find_appointment a.id w.db.appointments ≡ some a) × (a.client_id ≡ b.client_id)
  from_own id none a f h = cc
  from_own id (some a') a f h = elim (Bool-cases (a'.client_id == b.client_id)) [
    | inl own ↦ (ground (arith, find_appointment_id id w.db.appointments a' f), ground arith)
    | inr other ↦ ground arith
  ]

  -- what `get_owned_appointment` finds is the row of its key and the caller's own
  owned_lem :
      (raw : Text) (a : Appointment)
      → get_owned_appointment b raw w.db.appointments ≡ some a
      → (find_appointment a.id w.db.appointments ≡ some a) × (a.client_id ≡ b.client_id)
  unfolding get_owned_appointment
  owned_lem raw a h = elim (Option-cases (b.libraries.parse_uuid raw)) [
    | inl missing ↦ ground arith
    | inr (id, is) ↦ from_own id _ a refl (ground arith)
  ]

module _ (b : Binding) (K : World → World → Type 0) (keeps : Keeps b K) (w : World) where
  -- nothing is done
  idle : K w w
  idle = keeps.on_same w w refl

  -- a service method, and the answer about it
  answered :
      {A : Type 0} (p : Result A × World) (f : A → Answer)
      → K w p.1
      → K w (((λ (_ : World). p) >>= λ a. pure (f a)) w).1
  answered p f k = subst (K w) (sym (then_pure w p f)) k

  book_found_lem :
      (found : Option Client) (start end : ℕ) (notes : Option Text)
      → find_client b.client_id w.db.clients ≡ found
      → K w (book_found b found start end notes w).1
  book_found_lem none start end notes h = idle
  book_found_lem (some c) start end notes h =
      answered (book_appointment b.service c start end b.call_id notes w) _
        (keeps.on_book w c start end notes h)

  book_client_lem :
      (start end : ℕ) (notes : Option Text) → K w (book_for_client b start end notes w).1
  unfolding book_for_client
  book_client_lem start end notes = book_found_lem _ start end notes refl

  cancel_found_lem :
      (raw : Text) (found : Option Appointment)
      → get_owned_appointment b raw w.db.appointments ≡ found
      → K w (cancel_found b found w).1
  cancel_found_lem raw none h = idle
  cancel_found_lem raw (some a) h =
      let own = owned_lem b w raw a h in
      answered (cancel_appointment b.service a w) _ (keeps.on_cancel w a own.0 own.1)

  cancel_owned_lem : (raw : Text) → K w (cancel_owned b raw w).1
  unfolding cancel_owned
  cancel_owned_lem raw = cancel_found_lem raw _ refl

  reschedule_found_lem :
      (raw : Text) (found : Option Appointment) (new_start new_end : ℕ)
      → get_owned_appointment b raw w.db.appointments ≡ found
      → K w (reschedule_found b found new_start new_end w).1
  reschedule_found_lem raw none new_start new_end h = idle
  reschedule_found_lem raw (some a) new_start new_end h =
      let own = owned_lem b w raw a h in
      answered (reschedule_appointment b.service a new_start new_end w) _
        (keeps.on_move w a new_start new_end own.0 own.1)

  reschedule_owned_lem :
      (raw : Text) (new_start new_end : ℕ) → K w (reschedule_owned b raw new_start new_end w).1
  unfolding reschedule_owned
  reschedule_owned_lem raw new_start new_end = reschedule_found_lem raw _ new_start new_end refl

  book_between_lem :
      (start end : Option ℕ) (notes : Option Text) → K w (book_between b start end notes w).1
  book_between_lem (some start) (some end) notes = book_client_lem start end notes
  book_between_lem (some start) none notes = idle
  book_between_lem none end notes = idle

  reschedule_between_lem :
      (raw : Text) (start end : Option ℕ) → K w (reschedule_between b raw start end w).1
  reschedule_between_lem raw (some start) (some end) = reschedule_owned_lem raw start end
  reschedule_between_lem raw (some start) none = idle
  reschedule_between_lem raw none end = idle

  book_tool_lem : (raw : Json) → K w (book_tool b raw w).1
  unfolding book_tool book_confirmed
  book_tool_lem raw = elim (Validated-cases (b.libraries.validate_book raw)) [
    | inl (why, h) ↦ rw (h, book_tool) idle
    | inr (args, h) ↦
        rw (h, book_tool)
          (choose (K w) args.caller_confirmed _ _ w
            (λ _.
              book_between_lem (parse_datetime b args.start) (parse_datetime b args.end) args.notes)
            (λ _. idle))
  ]

  cancel_tool_lem : (raw : Json) → K w (cancel_tool b raw w).1
  unfolding cancel_tool
  cancel_tool_lem raw = elim (Validated-cases (b.libraries.validate_id raw)) [
    | inl (why, h) ↦ rw (h, cancel_tool) idle
    | inr (args, h) ↦
        rw (h, cancel_tool)
          (choose (K w) args.caller_confirmed _ _ w (λ _. cancel_owned_lem args.appointment_id)
            (λ _. idle))
  ]

  reschedule_tool_lem : (raw : Json) → K w (reschedule_tool b raw w).1
  unfolding reschedule_tool
  reschedule_tool_lem raw = elim (Validated-cases (b.libraries.validate_reschedule raw)) [
    | inl (why, h) ↦ rw (h, reschedule_tool) idle
    | inr (args, h) ↦
        rw (h, reschedule_tool)
          (choose (K w) args.caller_confirmed _ _ w
            (λ _.
              reschedule_between_lem args.appointment_id (parse_datetime b args.new_start)
                (parse_datetime b args.new_end))
            (λ _. idle))
  ]

  -- What the methods of the service keep, the executor keeps, whatever is called.
  pub execute_keeps : (call : ToolCall) → K w (execute b call w).1
  unfolding execute dispatch
  execute_keeps call =
      choose (K w) (text_eq call.name (codes "check_availability")) _ _ w
        (λ _. keeps.on_same w _ (check_lem b (Json.object call.arguments) w).db)
        (λ _.
          choose (K w) (text_eq call.name (codes "list_my_appointments")) _ _ w
            (λ _. keeps.on_same w _ (ap (λ (v : World). v.db) (list_lem b w)))
            (λ _.
              choose (K w) (text_eq call.name (codes "book_appointment")) _ _ w
                (λ _. book_tool_lem (Json.object call.arguments))
                (λ _.
                  choose (K w) (text_eq call.name (codes "cancel_appointment")) _ _ w
                    (λ _. cancel_tool_lem (Json.object call.arguments))
                    (λ _.
                      choose (K w) (text_eq call.name (codes "reschedule_appointment")) _ _ w
                        (λ _. reschedule_tool_lem (Json.object call.arguments)) (λ _. idle)))))
