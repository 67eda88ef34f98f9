-- ===== src/Base/Text/Strip.antt =====
-- `strip` and blanks at the right end.
use Prim.Native.Nat.{ℕ}
use mathlib.Core.Path.{◌≡◌, refl, sym, ap, ◌∙◌}
use mathlib.Core.List.{[], ◌∷◌, ◌++◌}
use native.Mathlib.Omega.{arith}
use mathlib.Core.Logic.{inl, inr}
use open_voice.Base.Tests.{if◌then◌else◌, Bool-cases}
use open_voice.Base.Text.Defs.{Text, is_space, lstrip, rstrip, strip, rcons}

rstrip-rcons : (c : ℕ) (s : Text) → rstrip s ≡ s → rstrip (rcons c s) ≡ rcons c s
unfolding rstrip
rstrip-rcons c [] h = ground arith
rstrip-rcons c (d ∷ s) h = rw h

pub rstrip-rstrip : (s : Text) → rstrip (rstrip s) ≡ rstrip s
unfolding rstrip
rstrip-rstrip [] = refl
rstrip-rstrip (c ∷ s) = rstrip-rcons c (rstrip s) (rstrip-rstrip s)

-- Blanks at the right end of the last piece make no difference.
pub rstrip-append-rstrip : (r s : Text) → rstrip (r ++ rstrip s) ≡ rstrip (r ++ s)
unfolding rstrip
rstrip-append-rstrip [] s = rstrip-rstrip s
rstrip-append-rstrip (c ∷ r) s = ap (rcons c) (rstrip-append-rstrip r s)

lstrip-rcons :
    (c : ℕ) (s : Text) → lstrip (rcons c s) ≡ (if is_space c then lstrip s else rcons c s)
unfolding lstrip
lstrip-rcons c [] = ground arith
lstrip-rcons c (d ∷ s) = ground arith

-- The two ends can be stripped in either order.
pub strip_lem : (s : Text) → strip s ≡ lstrip (rstrip s)
unfolding strip
strip_lem [] = refl
strip_lem (c ∷ s) = ground (arith, strip_lem s, lstrip-rcons c (rstrip s))

pub strip-append-rstrip : (r s : Text) → strip (r ++ rstrip s) ≡ strip (r ++ s)
strip-append-rstrip r s =
    strip_lem (r ++ rstrip s) ∙ ap lstrip (rstrip-append-rstrip r s) ∙ sym (strip_lem (r ++ s))

pub strip_of_rstrip : (r s : Text) → rstrip r ≡ rstrip s → strip r ≡ strip s
strip_of_rstrip r s h = strip_lem r ∙ ap lstrip h ∙ sym (strip_lem s)

rcons_prefix :
    (c : ℕ) (s r : Text)
    → (w : Text) × (s ≡ r ++ w) × (rstrip w ≡ [])
    → (w : Text) × ((c ∷ s) ≡ rcons c r ++ w) × (rstrip w ≡ [])
unfolding rstrip
rcons_prefix c s [] (w, h, b) = elim (Bool-cases (is_space c)) [
  | inl blank ↦ (c ∷ w, ground arith, ground arith)
  | inr seen ↦ (w, ground arith, b)
]
rcons_prefix c s (d ∷ r) (w, h, b) = (w, ap (λ x. c ∷ x) h, b)

-- What `rstrip` drops stands at the end, and is blank.
pub rstrip_prefix : (s : Text) → (w : Text) × (s ≡ rstrip s ++ w) × (rstrip w ≡ [])
unfolding rstrip
rstrip_prefix [] = ([], refl, refl)
rstrip_prefix (c ∷ s) = rcons_prefix c s (rstrip s) (rstrip_prefix s)
