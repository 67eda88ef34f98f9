-- ===== src/Notifications/Atomic.antt =====
-- `book_appointment` of src/openvoice/booking/service.py with the senders of src/openvoice/notifications/providers: whether a
-- row was stored can be told by what comes out.
use open_voice.Base.{
  ℕ, ◌≡◌, ◌≢◌, refl, sym, subst, inl, inr, Bool, true, false, Option, none, some, List, is_empty,
  if◌then◌else◌,
}
use open_voice.Base.Text.{Text, codes}
use open_voice.Base.Result.{Error, Result, ok, err, Exec, pure, ◌>>◌}
use open_voice.Db.{Appointment, Client}
use open_voice.Booking.Service.{Service, World, Message}
use open_voice.Booking.Service.Actions.{
  ignore_notification_error, try_send, send_confirmation, confirmation, sms_confirmation,
  email_confirmation, book_appointment,
}
use open_voice.Booking.Service.Bookings.{
  Books, repeated, refused, not_created, not_stored, stored, new_row, with_row,
  book_appointment-Books,
}
use open_voice.Config.Factories.{TwilioConfig, ResendConfig}
use open_voice.Services.{map_option}
use open_voice.Notifications.{
  Http, Request, raised, twilio_sender, resend_sender, sms_request, email_request,
}
use open_voice.Notifications.Attempts.{IsRetryer}
use open_voice.Notifications.Delivery.{
  Delivers, delivered, passed_on, send_sms-Delivers, send_email-Delivers,
}

-- The HTTP client raises nothing but an `HTTPError`.
abbrev pub RaisesOnlyHttpErrors : Http → Type 0
RaisesOnlyHttpErrors http =
    (sent : List Message) (k : ℕ) (request : Request) (e : Error)
    → http.post sent k request ≢ raised e

-- What is sent comes to nothing that the service does not ignore.
abbrev Ignored : Result (Unit {0}) → Type 0
Ignored r = ignore_notification_error r ≡ ok tt

passes-not_raised : (r : Result (Unit {0})) (e : Error) → r ≡ ok tt → r ≢ err e
passes-not_raised r e h k = cc

module _ (http : Http) (retries : IsRetryer http) (only : RaisesOnlyHttpErrors http) where
  Delivers-Ignored :
      (request : Request) (sent : List Message) (max : ℕ) (failed : Text) (r : Result (Unit {0}))
      → Delivers http retries request sent max failed r
      → Ignored r
  Delivers-Ignored request sent max failed _ (delivered k at x) = refl
  Delivers-Ignored request sent max failed _ (Delivers.refused k why x) = refl
  Delivers-Ignored request sent max failed _ (passed_on k e at h) = absurd (only sent k request e h)

  sms-Ignored :
      (config : TwilioConfig) (sent : List Message) (to body : Text)
      → Ignored (twilio_sender http config sent (Message.sms to body))
  sms-Ignored config sent to body =
      Delivers-Ignored (sms_request http config to body) sent config.max_retries _ _
        (send_sms-Delivers http retries config to body sent)

  email-Ignored :
      (config : ResendConfig) (sent : List Message) (to subject body : Text)
      → Ignored (resend_sender http config sent (Message.email to subject body))
  email-Ignored config sent to subject body =
      Delivers-Ignored (email_request http config to subject body) sent config.max_retries _ _
        (send_email-Delivers http retries config to subject body sent)

  unless_empty :
      (b : Bool) (m : Exec World (Unit {0})) (w : World)
      → (m w).0 ≡ ok tt
      → ((if b then pure tt else m) w).0 ≡ ok tt
  unless_empty true m w h = refl
  unless_empty false m w h = h

  module _ (s : Service) (twilio : Option TwilioConfig) (resend : Option ResendConfig) where
    sms_passes :
        (config : Option TwilioConfig) (to body : Text) (w : World)
        → (sms_confirmation s (map_option (twilio_sender http) config) to body w).0 ≡ ok tt
    unfolding try_send
    sms_passes none to body w = refl
    sms_passes (some config) to body w =
        unless_empty (is_empty to) (try_send s (twilio_sender http config) (Message.sms to body)) w
          (sms-Ignored config w.outbox to body)

    email_passes :
        (config : Option ResendConfig) (to : Option Text) (body : Text) (w : World)
        → (email_confirmation s (map_option (resend_sender http) config) to body w).0 ≡ ok tt
    unfolding try_send
    email_passes none to body w = refl
    email_passes (some config) none body w = refl
    email_passes (some config) (some to) body w =
        unless_empty (is_empty to)
          (try_send s (resend_sender http config)
            (Message.email to (codes "Appointment confirmed") body))
          w (email-Ignored config w.outbox to (codes "Appointment confirmed") body)

    both_pass :
        (w : World) (m : Result (Unit {0}) × World) (n : Exec World (Unit {0}))
        → m.0 ≡ ok tt
        → ((v : World) → (n v).0 ≡ ok tt)
        → (((λ (_ : World). m) >> n) w).0 ≡ ok tt
    both_pass w (ok _, v) n h k = k v
    both_pass w (err e, v) n h k = cc

    confirmation_passes :
        (c : Client) (a : Appointment) (w : World)
        → s.sms ≡ map_option (twilio_sender http) twilio
        → s.email ≡ map_option (resend_sender http) resend
        → (send_confirmation s c a w).0 ≡ ok tt
    unfolding send_confirmation
    confirmation_passes c a w sms email =
        both_pass w (sms_confirmation s s.sms c.phone_number (confirmation s a) w)
          (email_confirmation s s.email c.email (confirmation s a))
          (subst (λ x. (sms_confirmation s x c.phone_number (confirmation s a) w).0 ≡ ok tt)
            (sym sms) (sms_passes twilio c.phone_number (confirmation s a) w))
          (λ v.
            subst (λ x. (email_confirmation s x c.email (confirmation s a) v).0 ≡ ok tt) (sym email)
              (email_passes resend c.email (confirmation s a) v))

    -- A booking that raises has stored nothing: with Twilio and Resend, or without them, as the senders of messages, on an
    -- HTTP client that raises only its own errors and a retryer of tenacity's kind, the rows are what they were
    -- whenever `book_appointment` raises.
    pub book_appointment_atomic :
        (c : Client) (start end : ℕ) (call_id : Option ℕ) (notes : Option Text) (w : World)
        (e : Error)
        → s.sms ≡ map_option (twilio_sender http) twilio
        → s.email ≡ map_option (resend_sender http) resend
        → (book_appointment s c start end call_id notes w).0 ≡ err e
        → (book_appointment s c start end call_id notes w).1.db.appointments ≡ w.db.appointments
    book_appointment_atomic c start end call_id notes w e sms email h =
        unchanged _ (book_appointment-Books s c start end call_id notes w) h
      where
        unchanged :
            (p : Result Appointment × World)
            → Books s c start end call_id notes w p
            → p.0 ≡ err e
            → p.1.db.appointments ≡ w.db.appointments
        unchanged _ (repeated a f t) h = refl
        unchanged _ (refused a f t) h = refl
        unchanged _ (not_created e f k) h = refl
        unchanged _ (not_stored i f k le) h = refl
        unchanged _ (stored i r after f k lt same_db log (inl same)) h = cc
        unchanged _ (stored i r after f k lt same_db log (inr (e', same, ne, is))) h = absurd (
            passes-not_raised _ e'
              (confirmation_passes c (new_row s c start end call_id notes w i)
                (with_row s c start end call_id notes w i) sms email)
              is)
