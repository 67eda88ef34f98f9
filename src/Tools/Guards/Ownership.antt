-- ===== src/Tools/Guards/Ownership.antt =====
-- The ownership check of src/openvoice/agent/tools/booking.py.
use open_voice.Base.{ℕ, ◌≡◌, refl, ap, ◌∙◌, inl, inr, Option, some}
use open_voice.Base.Text.{Text}
use open_voice.Base.Result.{Result}
use open_voice.Llm.{ToolCall}
use open_voice.Db.{Appointment, Client, Db, find_appointment}
use open_voice.Booking.Service.{World}
use open_voice.Booking.Service.Actions.{cancel_appointment, moved}
use open_voice.Booking.Service.Bookings.{
  Books, new_row, repeated, refused, not_created, not_stored, stored, book_appointment-Books,
}
use open_voice.Booking.Service.Cancellations.{cancelled_row, cancel_appointment_rows}
use open_voice.Booking.Service.Moves.{Moves, reschedule_appointment-Moves}
use open_voice.Tools.{Binding}
use open_voice.Tools.Executor.{execute}
use open_voice.Tools.Guards.Rows.{
  others, KeepsOthers, others_append_own, others_replace_own, find_client_id,
}
use open_voice.Tools.Guards.Keeps.{Keeps, execute_keeps}

module _ (b : Binding) (w : World) where
  book_service :
      (c : Client) (start end : ℕ) (notes : Option Text) (p : Result Appointment × World)
      → c.id ≡ b.client_id
      → Books b.service c start end b.call_id notes w p
      → KeepsOthers b.client_id w p.1
  book_service c start end notes _ own (repeated a h t) = refl
  book_service c start end notes _ own (refused a h t) = refl
  book_service c start end notes _ own (not_created e f h) = refl
  book_service c start end notes _ own (not_stored i f h le) = refl
  book_service c start end notes _ own (stored i r v f h lt same_db log res) =
      ap (others b.client_id) (ap (λ (d : Db). d.appointments) same_db)
      ∙ others_append_own b.client_id w.db.appointments
          (new_row b.service c start end b.call_id notes w i) own

  cancel_service :
      (a : Appointment)
      → find_appointment a.id w.db.appointments ≡ some a
      → a.client_id ≡ b.client_id
      → KeepsOthers b.client_id w (cancel_appointment b.service a w).1
  cancel_service a f own = elim (cancel_appointment_rows b.service a w) [
    | inl same ↦ ap (others b.client_id) same
    | inr rows ↦
        ap (others b.client_id) rows
        ∙ others_replace_own b.client_id w.db.appointments a (cancelled_row b.service a w) f own own
  ]

  reschedule_service :
      (a : Appointment) (new_start new_end : ℕ) (p : Result Appointment × World)
      → find_appointment a.id w.db.appointments ≡ some a
      → a.client_id ≡ b.client_id
      → Moves b.service a new_start new_end w p
      → KeepsOthers b.client_id w p.1
  reschedule_service a new_start new_end _ f own (Moves.no_event h) = refl
  reschedule_service a new_start new_end _ f own (Moves.not_moved i e h k) = refl
  reschedule_service a new_start new_end _ f own (Moves.not_stored i h k le) = refl
  reschedule_service a new_start new_end _ f own (Moves.stored i h k lt) =
      others_replace_own b.client_id w.db.appointments a (moved b.service a new_start new_end) f own
        own

module _ (b : Binding) where
  -- the methods of the service touch the rows of the caller alone
  others-Keeps : Keeps b (KeepsOthers b.client_id)
  others-Keeps = record {
    on_same = λ w v h. ap (λ (db : Db). others b.client_id db.appointments) h;
    on_book = λ w c start end notes h.
        book_service b w c start end notes _ (find_client_id b.client_id w.db.clients c h)
          (book_appointment-Books b.service c start end b.call_id notes w);
    on_cancel = λ w a f own. cancel_service b w a f own;
    on_move = λ w a new_start new_end f own.
        reschedule_service b w a new_start new_end _ f own
          (reschedule_appointment-Moves b.service a new_start new_end w);
  }

  -- Whatever the model calls, with whatever arguments and confirmation, the appointments of the other
  -- clients stay in the table as they are.
  pub execute_others :
      (w : World) (call : ToolCall) → KeepsOthers b.client_id w (execute b call w).1
  execute_others w = execute_keeps b (KeepsOthers b.client_id) others-Keeps w
