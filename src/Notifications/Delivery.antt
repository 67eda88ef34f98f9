-- ===== src/Notifications/Delivery.antt =====
-- What comes out of posting a message (src/openvoice/notifications/providers), by the attempts that were made.
use open_voice.Base.{
  ℕ, ◌+◌, ◌≡◌, ◌≤◌, ◌<◌, refl, sym, ap, subst, ◌∙◌, inl, inr, true, false, List, ◌++◌, arith,
  Bool-cases, ltb,
}
use open_voice.Base.Text.{Text, codes}
use open_voice.Base.Result.{Error, Result, ok, err}
use open_voice.Booking.Service.{Message}
use open_voice.Config.Factories.{TwilioConfig, ResendConfig}
use open_voice.Notifications.Attempts.{
  Retried, IsRetryer, Reached, Accepted, FailsLast, Ends, retry-Ends, attempt_of,
}
use open_voice.Notifications.{
  Http, Request, raised, Attempt, posted, retryable_status, transport_failed, http_failed, escaped,
  is_retried, attempt, outcome, sms_request, email_request, send_sms, send_email,
}

ltb-< : (m n : ℕ) → ltb m n ≡ true → m < n
ltb-< m n h = ground arith

module _ (http : Http) (retries : IsRetryer http) (request : Request) (sent : List Message)
    (max : ℕ) where
  -- How a delivery may end. What it raises begins with the words of the provider.
  pub data Delivers (failed : Text) : Result (Unit {0}) → Type 0 where
    delivered :
        (k : ℕ)
        → Reached http retries request sent max k
        → Accepted http retries request sent max k
        → Delivers failed (ok tt)
    -- the failure of attempt `k`, which is final or the last one that is allowed
    refused :
        (k : ℕ) (why : Text)
        → FailsLast http retries request sent max k why
        → Delivers failed (err (Error.notification_error (failed ++ why)))
    -- an exception that is no `HTTPError`
    passed_on :
        (k : ℕ) (e : Error)
        → Reached http retries request sent max k
        → http.post sent k request ≡ raised e
        → Delivers failed (err e)

  Ends-Delivers :
      (failed : Text) (a : Attempt)
      → Ends http retries request sent max a
      → Delivers failed (outcome http failed a)
  Ends-Delivers failed (posted code content) (k, at, x) = delivered k at (code, content, x)
  Ends-Delivers failed (retryable_status code) (k, x) = refused k _ x
  Ends-Delivers failed (transport_failed why) (k, x) = refused k why x
  Ends-Delivers failed (http_failed why) (k, x) = refused k why x
  Ends-Delivers failed (escaped e) (k, at, x) = passed_on k e at x

  delivery-Delivers :
      (failed : Text)
      → Delivers failed (outcome http failed (http.retry max (attempt http request sent)))
  delivery-Delivers failed = Ends-Delivers failed _ (retry-Ends http retries request sent max)

  -- once the attempts are used up by failures that are retried, none is left
  delivery_persists :
      (failed : Text) (k : ℕ)
      → k < max
      → ((j : ℕ) → j < k → is_retried (attempt http request sent j) ≡ true)
      → Accepted http retries request sent max k
      → outcome http failed (http.retry max (attempt http request sent)) ≡ ok tt
  delivery_persists failed k lt earlier x =
      let r = retries max (attempt http request sent) in
      subst (λ a. outcome http failed a ≡ ok tt)
        (sym (
          r.outcome_of_last
          ∙ ap (attempt http request sent) (last_is r)
          ∙ attempt_of http retries request sent max k x))
        refl
    where
      over : {n : ℕ} → n < k → max ≤ n + 1 → ⊥
      over below full = omega (arith, below, full, lt)

      not_retried : is_retried (attempt http request sent k) ≡ true → ⊥
      not_retried h =
          cc_posted (sym (ap is_retried (attempt_of http retries request sent max k x)) ∙ h)
        where
          cc_posted : false ≡ true → ⊥
          cc_posted e = cc

      last_is :
          (r : Retried max (attempt http request sent) (http.retry max (attempt http request sent)))
          → r.last ≡ k
      last_is r = elim (Bool-cases (ltb r.last k)) [
        | inl early ↦
            (let below = ltb-< r.last k early in
              let full = r.used_up (earlier r.last below) in absurd (over below full))
        | inr late ↦ elim (Bool-cases (ltb k r.last)) [
          | inl after ↦ absurd (not_retried (r.before k (ltb-< k r.last after)))
          | inr same ↦ ground arith
        ]
      ]

-- `send_sms`, with a retryer of tenacity's kind: it returns only when an attempt within the allowed number
-- of attempts was answered with a status that is accepted; it raises a `NotificationError` only with the
-- failure of an attempt that failed for good or was the last one allowed; and it passes on only what the HTTP client
-- raised that is no `HTTPError`; every attempt before failed in a way that is retried.
pub send_sms-Delivers :
    (http : Http) (retries : IsRetryer http) (config : TwilioConfig) (to body : Text)
    (sent : List Message)
    → Delivers http retries
        (sms_request http config to body)
        sent
        config.max_retries
        (codes "Twilio SMS send failed: ")
        (send_sms http config to body sent)
unfolding send_sms
send_sms-Delivers http retries config to body sent =
    delivery-Delivers http retries (sms_request http config to body) sent config.max_retries
      (codes "Twilio SMS send failed: ")

-- The same of `send_email`.
pub send_email-Delivers :
    (http : Http) (retries : IsRetryer http) (config : ResendConfig) (to subject body : Text)
    (sent : List Message)
    → Delivers http retries
        (email_request http config to subject body)
        sent
        config.max_retries
        (codes "Resend email send failed: ")
        (send_email http config to subject body sent)
unfolding send_email
send_email-Delivers http retries config to subject body sent =
    delivery-Delivers http retries (email_request http config to subject body) sent
      config.max_retries (codes "Resend email send failed: ")

-- `send_sms` gets through: if attempt `k` is within the allowed number and is accepted, and the attempts
-- before it fail in a way that is retried, the message is sent.
pub send_sms_persists :
    (http : Http) (retries : IsRetryer http) (config : TwilioConfig) (to body : Text)
    (sent : List Message) (k : ℕ)
    → k < config.max_retries
    → ((j : ℕ) → j < k → is_retried (attempt http (sms_request http config to body) sent j) ≡ true)
    → Accepted http retries (sms_request http config to body) sent config.max_retries k
    → send_sms http config to body sent ≡ ok tt
unfolding send_sms
send_sms_persists http retries config to body sent k lt earlier x =
    delivery_persists http retries (sms_request http config to body) sent config.max_retries
      (codes "Twilio SMS send failed: ") k lt earlier x
