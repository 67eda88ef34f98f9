-- ===== src/Tools/Guards/Calls.antt =====
-- The executor of src/openvoice/agent/tools/booking.py works on the appointments alone.
use open_voice.Base.{ℕ, ◌≡◌, refl, ap, Option, arith}
use open_voice.Base.Text.{Text}
use open_voice.Base.Result.{Result}
use open_voice.Llm.{ToolCall}
use open_voice.Db.{Appointment, Client, Db, update_appointment}
use open_voice.Booking.Service.{World}
use open_voice.Booking.Service.Actions.{
  cancel_appointment, reschedule_appointment, reschedule_event_of,
}
use open_voice.Booking.Service.Bookings.{
  Books, repeated, refused, not_created, not_stored, stored, book_appointment-Books,
}
use open_voice.Tools.{Binding}
use open_voice.Tools.Executor.{execute}
use open_voice.Tools.Guards.Keeps.{Keeps, execute_keeps}

-- The other tables are as they were.
pub record KeepsTables (before after : World) : Type 0 where
  pub clients : after.db.clients ≡ before.db.clients
  pub calls : after.db.calls ≡ before.db.calls
  pub transcripts : after.db.transcripts ≡ before.db.transcripts

abbrev pub same_tables : (w v : World) → v.db ≡ w.db → KeepsTables w v
same_tables w v h = record {
  clients = ap (λ (d : Db). d.clients) h;
  calls = ap (λ (d : Db). d.calls) h;
  transcripts = ap (λ (d : Db). d.transcripts) h;
}

module _ (b : Binding) (w : World) where
  book_tables :
      (c : Client) (start end : ℕ) (notes : Option Text) (p : Result Appointment × World)
      → Books b.service c start end b.call_id notes w p
      → KeepsTables w p.1
  book_tables c start end notes _ (repeated a h t) = same_tables w w refl
  book_tables c start end notes _ (refused a h t) = same_tables w w refl
  book_tables c start end notes _ (not_created e f h) = same_tables w _ refl
  book_tables c start end notes _ (not_stored i f h le) = same_tables w _ refl
  book_tables c start end notes _ (stored i r v f h lt same_db log res) = record {
    clients = ap (λ (d : Db). d.clients) same_db;
    calls = ap (λ (d : Db). d.calls) same_db;
    transcripts = ap (λ (d : Db). d.transcripts) same_db;
  }

  cancel_tables : (a : Appointment) → KeepsTables w (cancel_appointment b.service a w).1
  unfolding cancel_appointment update_appointment
  cancel_tables a = record {
    clients = ground arith;
    calls = ground arith;
    transcripts = ground arith;
  }

  move_tables :
      (a : Appointment) (new_start new_end : ℕ)
      → KeepsTables w (reschedule_appointment b.service a new_start new_end w).1
  unfolding reschedule_appointment reschedule_event_of update_appointment
  move_tables a new_start new_end = record {
    clients = ground arith;
    calls = ground arith;
    transcripts = ground arith;
  }

tables-Keeps : (b : Binding) → Keeps b KeepsTables
tables-Keeps b = record {
  on_same = same_tables;
  on_book = λ w c start end notes h.
      book_tables b w c start end notes _
        (book_appointment-Books b.service c start end b.call_id notes w);
  on_cancel = λ w a f own. cancel_tables b w a;
  on_move = λ w a new_start new_end f own. move_tables b w a new_start new_end;
}

-- Whatever the model calls, the clients, the calls and the transcripts stay as they are.
pub execute_tables :
    (b : Binding) (w : World) (call : ToolCall) → KeepsTables w (execute b call w).1
execute_tables b w = execute_keeps b KeepsTables (tables-Keeps b) w
