-- ===== src/Booking/Service/Confirmation.antt =====
-- `_send_confirmation` of src/openvoice/booking/service.py: whatever the senders do, it changes neither the
-- database nor the calendar, and no `NotificationError` comes out of it.
use open_voice.Base.{
  ◌≡◌, ◌≢◌, refl, ◌∙◌, Bool, true, false, Option, none, some, List, is_empty, if◌then◌else◌,
}
use open_voice.Base.Text.{Text, codes}
use open_voice.Base.Result.{Error, Result, ok, err, Exec, pure, ◌>>◌}
use open_voice.Db.{Appointment, Client}
use open_voice.Booking.Service.{Service, World, Message}
use open_voice.Booking.Service.Actions.{
  ignore_notification_error, try_send, send_confirmation, confirmation, sms_confirmation,
  email_confirmation,
}

-- Nothing but the outbox differs.
pub record OnlySends (before after : World) : Type 0 where
  pub db : after.db ≡ before.db
  pub calendar_log : after.calendar_log ≡ before.calendar_log

-- It only sends, and raises no `NotificationError`.
abbrev pub Harmless : Exec World (Unit {0}) → Type 0
Harmless m =
    (w : World)
    → OnlySends w (m w).1 × ((why : Text) → (m w).0 ≢ err (Error.notification_error why))

not_notification :
    (r : Result (Unit {0})) (why : Text)
    → ignore_notification_error r ≢ err (Error.notification_error why)
not_notification (ok _) why = cc
not_notification (err (Error.notification_error w)) why = cc
not_notification (err (Error.booking_error w)) why = cc
not_notification (err e) why = cc

try_send-Harmless :
    (send : List Message → Message → Result (Unit {0})) (s : Service) (m : Message)
    → Harmless (try_send s send m)
unfolding try_send
try_send-Harmless send s m w =
    (record { db = refl; calendar_log = refl }, not_notification (send w.outbox m))

bind-step :
    (w : World) (r : Result (Unit {0})) (w' : World) (n : Exec World (Unit {0}))
    → OnlySends w w'
    → ((why : Text) → r ≢ err (Error.notification_error why))
    → Harmless n
    → OnlySends w (((λ _. (r, w')) >> n) w).1
      × ((why : Text) → (((λ _. (r, w')) >> n) w).0 ≢ err (Error.notification_error why))
bind-step w (ok _) w' n o ne hn =
    let (o', ne') = hn w' in
    (record { db = o'.db ∙ o.db; calendar_log = o'.calendar_log ∙ o.calendar_log }, ne')
bind-step w (err e) w' n o ne hn = (o, ne)

bind-Harmless : (m n : Exec World (Unit {0})) → Harmless m → Harmless n → Harmless (m >> n)
bind-Harmless m n hm hn w = bind-step w (m w).0 (m w).1 n (hm w).0 (hm w).1 hn

pure-Harmless : Harmless (pure tt)
pure-Harmless w = (record { db = refl; calendar_log = refl }, λ why. cc)

cond-Harmless :
    (b : Bool) (m : Exec World (Unit {0})) → Harmless m → Harmless (if b then pure tt else m)
cond-Harmless true m h = pure-Harmless
cond-Harmless false m h = h

sms_confirmation-Harmless :
    (s : Service) (sender : Option (List Message → Message → Result (Unit {0}))) (to body : Text)
    → Harmless (sms_confirmation s sender to body)
sms_confirmation-Harmless s none to body = pure-Harmless
sms_confirmation-Harmless s (some send) to body =
    cond-Harmless (is_empty to) _ (try_send-Harmless send s (Message.sms to body))

email_confirmation-Harmless :
    (s : Service) (sender : Option (List Message → Message → Result (Unit {0}))) (to : Option Text)
    (body : Text)
    → Harmless (email_confirmation s sender to body)
email_confirmation-Harmless s none to body = pure-Harmless
email_confirmation-Harmless s (some send) none body = pure-Harmless
email_confirmation-Harmless s (some send) (some to) body =
    cond-Harmless (is_empty to) _
      (try_send-Harmless send s (Message.email to (codes "Appointment confirmed") body))

-- Whatever the senders do, `_send_confirmation` leaves the database and the calendar as they are, and
-- raises no `NotificationError`.
pub send_confirmation-Harmless :
    (s : Service) (c : Client) (a : Appointment) → Harmless (send_confirmation s c a)
unfolding send_confirmation
send_confirmation-Harmless s c a =
    bind-Harmless _ _ (sms_confirmation-Harmless s s.sms c.phone_number (confirmation s a))
      (email_confirmation-Harmless s s.email c.email (confirmation s a))
