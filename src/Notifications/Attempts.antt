-- ===== src/Notifications/Attempts.antt =====
-- One attempt to post (src/openvoice/notifications/providers and src/openvoice/tts/providers/elevenlabs.py), and the retryer.
use open_voice.Base.{
  ℕ, ◌+◌, ◌-◌, ◌≡◌, ◌≢◌, ◌≤◌, ◌<◌, refl, sym, ap, subst, ◌∙◌, ◌⊎◌, inl, inr, Bool, true, false,
  List, ◌++◌, arith, Bool-cases, if◌then◌else◌,
}
use open_voice.Base.Text.{Text, codes}
use open_voice.Base.Result.{Error, Result, ok, err}
use open_voice.Booking.Service.{Message}
use open_voice.Notifications.{
  Http, Request, Exchange, response, transport_error, http_error, raised, Attempt, posted,
  retryable_status, transport_failed, http_failed, escaped, is_retryable_status, is_retried,
  raise_for_status, after_exchange, attempt,
}

-- The documented behaviour of `AsyncRetrying` with `stop_after_attempt` and `reraise`: the last attempt's
-- outcome, where every attempt before it was retried, and a retried one is only the last when
-- the attempts are used up.
pub record Retried (max : ℕ) (attempts : ℕ → Attempt) (a : Attempt) : Type 0 where
  pub last : ℕ
  pub outcome_of_last : a ≡ attempts last
  pub before : (k : ℕ) → k < last → is_retried (attempts k) ≡ true
  pub used_up : is_retried (attempts last) ≡ true → max ≤ last + 1
  pub within : last ≤ max - 1

abbrev pub IsRetryer : Http → Type 0
IsRetryer http = (max : ℕ) (attempts : ℕ → Attempt) → Retried max attempts (http.retry max attempts)

module _ (http : Http) where
  status_posted :
      (c code : ℕ) (content body : List ℕ) (r : Result (Unit {0}))
      → raise_for_status http c content r ≡ posted code body
      → (c ≡ code) × (content ≡ body) × (r ≡ ok tt)
  status_posted c code content body (ok _) h = (cc, cc, refl)
  status_posted c code content body (err e) h = cc

  response_posted :
      (c code : ℕ) (content body : List ℕ) (retryable : Bool)
      → is_retryable_status c ≡ retryable
      → after_exchange http (response c content) ≡ posted code body
      → (response c content ≡ response code body)
        × (is_retryable_status code ≡ false)
        × (http.raise_for_status code ≡ ok tt)
  response_posted c code content body true b h = ground arith
  response_posted c code content body false b h =
      let (same, whole, fine) =
        status_posted c code content body (http.raise_for_status c) (sym (rw b refl) ∙ h) in
      (cc, cc, cc)

  exchange_posted :
      (x : Exchange) (code : ℕ) (content : List ℕ)
      → after_exchange http x ≡ posted code content
      → (x ≡ response code content)
        × (is_retryable_status code ≡ false)
        × (http.raise_for_status code ≡ ok tt)
  exchange_posted (response c body) code content h =
      response_posted c code body content (is_retryable_status c) refl h
  exchange_posted (transport_error why) code content h = cc
  exchange_posted (http_error why) code content h = cc
  exchange_posted (raised e) code content h = cc

  status_escapes :
      (c : ℕ) (content : List ℕ) (e : Error) (retryable : Bool) (r : Result (Unit {0}))
      → (if retryable then retryable_status c else raise_for_status http c content r) ≢ escaped e
  status_escapes c content e true r h = cc
  status_escapes c content e false (ok _) h = cc
  status_escapes c content e false (err e') h = cc

  exchange_escaped : (x : Exchange) (e : Error) → after_exchange http x ≡ escaped e → x ≡ raised e
  exchange_escaped (response c content) e h =
      absurd (status_escapes c content e (is_retryable_status c) (http.raise_for_status c) h)
  exchange_escaped (transport_error why) e h = cc
  exchange_escaped (http_error why) e h = cc
  exchange_escaped (raised e') e h = cc

  -- An exchange that comes to a failure, and how the failure is described.
  pub data Fails : Exchange → Text → Type 0 where
    retryable :
        (code : ℕ) (content : List ℕ)
        → is_retryable_status code ≡ true
        → Fails (response code content) (codes "Retryable status " ++ http.print_code code)
    refused_status :
        (code : ℕ) (content : List ℕ) (e : Error)
        → is_retryable_status code ≡ false
        → http.raise_for_status code ≡ err e
        → Fails (response code content) (codes "HTTPStatusError")
    unreached : (why : Text) → Fails (transport_error why) why
    broken : (why : Text) → Fails (http_error why) why

  abbrev Explains : Exchange → Attempt → Type 0
  Explains x (posted code content) = Unit
  Explains x (retryable_status code) = Fails x (codes "Retryable status " ++ http.print_code code)
  Explains x (transport_failed why) = Fails x why
  Explains x (http_failed why) = Fails x why
  Explains x (escaped e) = Unit

  status-Explains :
      (code : ℕ) (content : List ℕ) (r : Result (Unit {0}))
      → is_retryable_status code ≡ false
      → http.raise_for_status code ≡ r
      → Explains (response code content) (raise_for_status http code content r)
  status-Explains code content (ok _) b h = tt
  status-Explains code content (err e) b h = refused_status code content e b h

  exchange-Explains : (x : Exchange) → Explains x (after_exchange http x)
  exchange-Explains (response code content) = elim (Bool-cases (is_retryable_status code)) [
    | inl again ↦ rw again (retryable code content again)
    | inr final ↦ rw final (status-Explains code content _ final refl)
  ]
  exchange-Explains (transport_error why) = unreached why
  exchange-Explains (http_error why) = broken why
  exchange-Explains (raised e) = tt

module _ (http : Http) (retries : IsRetryer http) (request : Request) (sent : List Message)
    (max : ℕ) where
  -- An answer that `_post` returns.
  abbrev pub AcceptedWith : ℕ → ℕ → List ℕ → Type 0
  AcceptedWith k code content =
      (http.post sent k request ≡ response code content)
      × (is_retryable_status code ≡ false)
      × (http.raise_for_status code ≡ ok tt)

  abbrev pub Accepted : ℕ → Type 0
  Accepted k = (code : ℕ) × (content : List ℕ) × AcceptedWith k code content

  -- Attempt `k` is within the allowed number, and every attempt before it was retried.
  abbrev pub Reached : ℕ → Type 0
  Reached k = (k ≤ max - 1) × ((j : ℕ) → j < k → is_retried (attempt http request sent j) ≡ true)

  -- Attempt `k` is the last: it failed, for good or with no attempt left.
  abbrev pub FailsLast : ℕ → Text → Type 0
  FailsLast k why =
      Reached k
      × Fails http (http.post sent k request) why
      × ((is_retried (attempt http request sent k) ≡ false) ⊎ (max ≤ k + 1))

  posted_lem :
      (k code : ℕ) (content : List ℕ)
      → attempt http request sent k ≡ posted code content
      → AcceptedWith k code content
  unfolding attempt
  posted_lem k code content h = exchange_posted http (http.post sent k request) code content h

  escaped_lem :
      (k : ℕ) (e : Error)
      → attempt http request sent k ≡ escaped e
      → http.post sent k request ≡ raised e
  unfolding attempt
  escaped_lem k e h = exchange_escaped http (http.post sent k request) e h

  explained_lem :
      (k : ℕ) (a : Attempt)
      → a ≡ attempt http request sent k
      → Explains http (http.post sent k request) a
  unfolding attempt
  explained_lem k a h =
      subst (Explains http (http.post sent k request)) (sym h)
        (exchange-Explains http (http.post sent k request))

  -- What the attempts come to.
  abbrev pub Ends : Attempt → Type 0
  Ends (posted code content) = (k : ℕ) × Reached k × AcceptedWith k code content
  Ends (retryable_status code) =
      (k : ℕ) × FailsLast k (codes "Retryable status " ++ http.print_code code)
  Ends (transport_failed why) = (k : ℕ) × FailsLast k why
  Ends (http_failed why) = (k : ℕ) × FailsLast k why
  Ends (escaped e) = (k : ℕ) × Reached k × (http.post sent k request ≡ raised e)

  last-Ends :
      (a : Attempt) (k : ℕ)
      → a ≡ attempt http request sent k
      → Reached k
      → (is_retried a ≡ true → max ≤ k + 1)
      → Ends a
  last-Ends (posted code content) k h at up = (k, at, posted_lem k code content (sym h))
  last-Ends (retryable_status code) k h at up =
      (k, (at, explained_lem k (retryable_status code) h, inr (up refl)))
  last-Ends (transport_failed why) k h at up =
      (k, (at, explained_lem k (transport_failed why) h, inr (up refl)))
  last-Ends (http_failed why) k h at up =
      (k, (at, explained_lem k (http_failed why) h, inl (ap is_retried (sym h))))
  last-Ends (escaped e) k h at up = (k, at, escaped_lem k e (sym h))

  pub retry-Ends : Ends (http.retry max (attempt http request sent))
  retry-Ends =
      let r = retries max (attempt http request sent) in
      last-Ends _ r.last r.outcome_of_last (r.within, r.before)
        (λ h. r.used_up (subst (λ a. is_retried a ≡ true) r.outcome_of_last h))

  -- the attempt that an accepted exchange makes
  pub attempt_of : (k : ℕ) (x : Accepted k) → attempt http request sent k ≡ posted x.0 x.1
  unfolding attempt
  attempt_of k (code, content, (answered, fine, ok')) = rw (answered, fine, ok') refl
