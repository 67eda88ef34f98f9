-- ===== src/Notifications.antt =====
-- src/openvoice/notifications/providers: the messages that are posted to Twilio and to Resend. httpx and tenacity
-- are libraries, and parameters here. src/openvoice/tts/providers/elevenlabs.py posts in the same way (Voice/Elevenlabs).
pub mod Attempts
pub mod Delivery
pub mod Atomic
pub mod Sample
mod Tests
use open_voice.Base.{
  ℕ, suc, ◌+◌, ◌-◌, ◌≡◌, ◌≤◌, ◌<◌, Bool, true, false, ◌||◌, List, [], ◌∷◌, ◌++◌, ◌==◌,
  if◌then◌else◌, any,
}
use open_voice.Base.Text.{Text, codes}
use open_voice.Base.Json.{Json, Fields, Items}
use open_voice.Base.Result.{Error, Result, ok, err}
use open_voice.Booking.Service.{Message}
use open_voice.Config.Factories.{TwilioConfig, ResendConfig}

-- What a provider posts.
pub data Request : Type 0 where
  -- the url and the form's fields
  form : Text → List (Text × Text) → Request
  -- the url and the JSON body
  json : Text → Json → Request
  -- the url, the query and the JSON body
  query : Text → List (Text × Text) → Json → Request

-- What `client.post` does: it answers with a status code and a content, or raises a `TransportError`, another
-- `HTTPError`, or something else.
pub data Exchange : Type 0 where
  response : ℕ → List ℕ → Exchange
  transport_error : Text → Exchange
  http_error : Text → Exchange
  raised : Error → Exchange

-- What one attempt comes to.
pub data Attempt : Type 0 where
  posted : ℕ → List ℕ → Attempt
  -- `_RetryableStatusError`
  retryable_status : ℕ → Attempt
  transport_failed : Text → Attempt
  -- any other `HTTPError`, the one that `raise_for_status` raises included
  http_failed : Text → Attempt
  escaped : Error → Attempt

-- `_RETRYABLE_STATUS_CODES`
abbrev pub is_retryable_status : ℕ → Bool
is_retryable_status code = any (λ c. c == code) (429 ∷ 500 ∷ 502 ∷ 503 ∷ 504 ∷ [])

-- `retry_if_exception_type((httpx.TransportError, _RetryableStatusError))`
abbrev pub is_retried : Attempt → Bool
is_retried (retryable_status code) = true
is_retried (transport_failed why) = true
is_retried _ = false

-- The libraries: the exchange of an attempt, after the messages before; what `raise_for_status`
-- says of a status; and the retryer, of the number of attempts at most, on the attempts by
-- number.
pub record Http : Type 0 where
  pub post : List Message → ℕ → Request → Exchange
  pub raise_for_status : ℕ → Result (Unit {0})
  pub retry : ℕ → (ℕ → Attempt) → Attempt
  pub print_code : ℕ → Text

module _ (http : Http) where
  abbrev pub raise_for_status : ℕ → List ℕ → Result (Unit {0}) → Attempt
  raise_for_status code content (ok _) = posted code content
  raise_for_status code content (err e) = http_failed (codes "HTTPStatusError")

  -- the rest of `_post`, behind the exchange
  abbrev pub after_exchange : Exchange → Attempt
  after_exchange (response code content) =
      if is_retryable_status code
      then retryable_status code
      else raise_for_status code content (http.raise_for_status code)
  after_exchange (transport_error why) = transport_failed why
  after_exchange (http_error why) = http_failed why
  after_exchange (raised e) = escaped e

  -- `_post`
  unfoldable pub attempt : Request → List Message → ℕ → Attempt
  attempt request sent k = after_exchange (http.post sent k request)

  -- `except (httpx.HTTPError, _RetryableStatusError)`
  abbrev pub outcome : Text → Attempt → Result (Unit {0})
  outcome failed (posted code content) = ok tt
  outcome failed (retryable_status code) =
      err (Error.notification_error (failed ++ (codes "Retryable status " ++ http.print_code code)))
  outcome failed (transport_failed why) = err (Error.notification_error (failed ++ why))
  outcome failed (http_failed why) = err (Error.notification_error (failed ++ why))
  outcome failed (escaped e) = err e

  -- `_post` of Twilio: the url and the form
  abbrev pub sms_request : TwilioConfig → Text → Text → Request
  sms_request config to body =
      form
        (codes "https://api.twilio.com/2010-04-01/Accounts/"
          ++ (config.account_sid ++ codes "/Messages.json"))
        ((codes "To", to) ∷ (codes "From", config.from_number) ∷ (codes "Body", body) ∷ [])

  unfoldable pub send_sms : TwilioConfig → Text → Text → List Message → Result (Unit {0})
  send_sms config to body sent =
      outcome (codes "Twilio SMS send failed: ")
        (http.retry config.max_retries (attempt (sms_request config to body) sent))

  -- `_post` of Resend
  abbrev pub email_request : ResendConfig → Text → Text → Text → Request
  email_request config to subject body = json (codes "https://api.resend.com/emails") (
      Json.object (
        Fields.field (codes "from") (Json.string config.from_email) (
          Fields.field (codes "to") (Json.array (Items.cons (Json.string to) Items.nil)) (
            Fields.field (codes "subject") (Json.string subject)
              (Fields.field (codes "text") (Json.string body) Fields.end)))))

  unfoldable pub send_email : ResendConfig → Text → Text → Text → List Message → Result (Unit {0})
  send_email config to subject body sent =
      outcome (codes "Resend email send failed: ")
        (http.retry config.max_retries (attempt (email_request config to subject body) sent))

  -- The senders of a `BookingService`: each one is handed the messages of its own kind.
  abbrev pub twilio_sender : TwilioConfig → List Message → Message → Result (Unit {0})
  twilio_sender config sent (Message.sms to body) = send_sms config to body sent
  twilio_sender config sent (Message.email to subject body) = err Error.not_implemented_error

  abbrev pub resend_sender : ResendConfig → List Message → Message → Result (Unit {0})
  resend_sender config sent (Message.email to subject body) = send_email config to subject body sent
  resend_sender config sent (Message.sms to body) = err Error.not_implemented_error
