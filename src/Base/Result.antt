-- ===== src/Base/Result.antt =====
-- Python's exceptions as values, and stateful code that may raise: the state stays as it was
-- written up to the raise.
use open_voice.Base.Text.{Text}

-- The exception classes that the modelled code raises or catches. `other` is any further
-- exception of a library, such as one that a provider's SDK raises.
pub data Error : Type 0 where
  booking_error calendar_error notification_error llm_provider_error : Text → Error
  runtime_error not_implemented_error value_error overflow_error integrity_error : Error
  stt_error tts_error : Text → Error
  other : Text → Error
  -- No exception of the program: a loop that has not ended within the fuel of the model.
  out_of_fuel : Error

pub data Result {ℓ} (A : Type ℓ) : Type ℓ where
  ok : A → Result A
  err : Error → Result A

-- Stateful code that may raise.
abbrev pub Exec : Type 0 → Type 0 → Type 0
Exec S A = S → Result A × S

module _ {S A : Type 0} where
  abbrev pub pure : A → Exec S A
  pure a s = (ok a, s)

  abbrev pub raise : Error → Exec S A
  raise e s = (err e, s)

  abbrev pub gets : (S → A) → Exec S A
  gets f s = (ok (f s), s)

  abbrev pub lift : Result A → Exec S A
  lift r s = (r, s)

abbrev pub modify : {S : Type 0} → (S → S) → Exec S (Unit {0})
modify f s = (ok tt, f s)

-- The next step of pure code that may raise.
abbrev pub then_ok : {A B : Type 0} → Result A → (A → Result B) → Result B
then_ok (ok a) f = f a
then_ok (err e) f = err e

infixl 5 ◌>>=◌ ◌>>◌
abbrev pub ◌>>=◌ : {S A B : Type 0} → Exec S A → (A → Exec S B) → Exec S B
◌>>=◌ m f s = let (r, s') = m s in elim r [ ok a ↦ f a s' | err e ↦ (err e, s') ]

abbrev pub ◌>>◌ : {S A B : Type 0} → Exec S A → Exec S B → Exec S B
m >> k = m >>= λ _. k
