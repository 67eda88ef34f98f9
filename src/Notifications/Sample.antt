-- ===== src/Notifications/Sample.antt =====
-- Libraries that behave as src/openvoice/notifications/providers expects them to: the instances of the theorems stand on
-- them.
use open_voice.Base.{
  [], ℕ, zero, suc, ◌+◌, ◌-◌, ◌≡◌, ◌≢◌, ◌≤◌, ◌<◌, refl, sym, subst, inl, inr, Bool, true, false,
  arith, Bool-cases, ltb, ◌==◌, if◌then◌else◌,
}
use open_voice.Base.Text.{codes}
use open_voice.Base.Result.{Error, ok, err}
use open_voice.Notifications.{Http, response, Attempt, is_retried}
use open_voice.Notifications.Attempts.{IsRetryer}
use open_voice.Notifications.Atomic.{RaisesOnlyHttpErrors}

-- `n` more attempts at most after attempt `k`
unfoldable pub retry_from : ℕ → ℕ → (ℕ → Attempt) → Attempt
retry_from zero k attempts = attempts k
retry_from (suc n) k attempts = elim (is_retried (attempts k)) [
  | true ↦ retry_from n (suc k) attempts
  | false ↦ attempts k
]

-- Unavailable at first, and then it accepts.
abbrev pub sample_http : Http
sample_http = record {
  post = λ sent k request. response (if k == 0 then 503 else 201) [];
  raise_for_status =
      λ code. if ltb code 300 then ok tt else err (Error.other (codes "HTTPStatusError"));
  retry = λ max attempts. retry_from (max - 1) 0 attempts;
  print_code = λ code. codes "status";
}

record From (n k : ℕ) (attempts : ℕ → Attempt) (a : Attempt) : Type 0 where
  last : ℕ
  outcome_of_last : a ≡ attempts last
  at_least : k ≤ last
  before : (j : ℕ) → k ≤ j → j < last → is_retried (attempts j) ≡ true
  used_up : is_retried (attempts last) ≡ true → last ≡ k + n
  within : last ≤ k + n

not_both : (b : Bool) → b ≡ true → b ≢ false
not_both b h k = cc

later : (k j : ℕ) → k ≤ j → (j == k) ≡ false → suc k ≤ j
later k j le h = ground arith

same_number : (k j : ℕ) → (j == k) ≡ true → k ≡ j
same_number k j h = ground arith

retry_from-From : (n k : ℕ) (attempts : ℕ → Attempt) → From n k attempts (retry_from n k attempts)
unfolding retry_from
retry_from-From zero k attempts = record {
  last = k;
  outcome_of_last = refl;
  at_least = omega arith;
  before = λ j le lt. absurd (omega (arith, le, lt));
  used_up = λ h. omega arith;
  within = omega arith;
}
retry_from-From (suc n) k attempts = elim (Bool-cases (is_retried (attempts k))) [
  | inl again ↦
      let f = retry_from-From n (suc k) attempts in
      subst (From (suc n) k attempts) (sym (rw (again, retry_from) refl)) (record {
        last = f.last;
        outcome_of_last = f.outcome_of_last;
        at_least = omega (arith, f.at_least);
        before = λ j le lt. elim (Bool-cases (j == k)) [
          | inl here ↦ subst (λ i. is_retried (attempts i) ≡ true) (same_number k j here) again
          | inr other ↦ f.before j (later k j le other) lt
        ];
        used_up = λ h. omega (arith, f.used_up h);
        within = omega (arith, f.within);
      })
  | inr done ↦ subst (From (suc n) k attempts) (sym (rw (done, retry_from) refl)) (record {
    last = k;
    outcome_of_last = refl;
    at_least = omega arith;
    before = λ j le lt. absurd (omega (arith, le, lt));
    used_up = λ h. absurd (not_both _ h done);
    within = omega arith;
  })
]

pub sample_http-IsRetryer : IsRetryer sample_http
sample_http-IsRetryer max attempts =
    let f = retry_from-From (max - 1) 0 attempts in
    record {
      last = f.last;
      outcome_of_last = f.outcome_of_last;
      before = λ j lt. f.before j (omega arith) lt;
      used_up = λ h. omega (arith, f.used_up h);
      within = omega (arith, f.within);
    }

pub sample_http-RaisesOnlyHttpErrors : RaisesOnlyHttpErrors sample_http
sample_http-RaisesOnlyHttpErrors sent k request e h = cc
