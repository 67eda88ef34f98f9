-- ===== src/Base/Text/Find.antt =====
-- `str.find` when text is appended at the end or put in front.
use Prim.Native.Nat.{ℕ, suc, ◌+◌, ◌≤◌}
use mathlib.Core.Path.{◌≡◌, refl}
use mathlib.Core.Logic.{◌≢◌}
use mathlib.Core.Bool.{false, true}
use mathlib.Core.Option
use mathlib.Core.Option.{Option, none, some}
use mathlib.Core.List.{[], ◌∷◌, ◌++◌, append_assoc}
use native.Mathlib.Omega.{arith}
use open_voice.Base.Lists.{any, length, length-append}
use open_voice.Base.Tests.{◌==◌, Option-cases}
use mathlib.Core.Logic.{inl, inr}
use open_voice.Base.Text.Defs.{Text, starts_with, find}

-- A text as long as the prefix decides the test.
pub starts_with-append :
    (p s d : Text) → length p ≤ length s → starts_with p (s ++ d) ≡ starts_with p s
unfolding starts_with
starts_with-append [] s d h = refl
starts_with-append (c ∷ p) [] d h = elim h [ ]
starts_with-append (c ∷ p) (x ∷ s) d h = ground (arith, starts_with-append p s d)

pub starts_with-length : (p s : Text) → starts_with p s ≡ true → length p ≤ length s
unfolding starts_with
starts_with-length [] s h = omega arith
starts_with-length (c ∷ p) [] h = ground arith
starts_with-length (c ∷ p) (x ∷ s) h = ground (arith, starts_with-length p s)

-- A match that holds goes on holding when more text arrives.
pub starts_with-append_true :
    (p s d : Text) → starts_with p s ≡ true → starts_with p (s ++ d) ≡ true
unfolding starts_with
starts_with-append_true [] s d h = refl
starts_with-append_true (c ∷ p) [] d h = ground arith
starts_with-append_true (c ∷ p) (x ∷ s) d h = ground (arith, starts_with-append_true p s d)

pub find_bound : (p s : Text) (i : ℕ) → find p s ≡ some i → i + length p ≤ length s
unfolding find
find_bound p [] i h = ground (arith, starts_with-length p [])
find_bound p (c ∷ s) i h = elim (Option-cases (find p s)) [
  | inl e ↦ ground (arith, starts_with-length p (c ∷ s))
  | inr (j, e) ↦ ground (arith, starts_with-length p (c ∷ s), find_bound p s j e)
]

-- The first match is still the first when more text arrives.
pub find-append_some : (p s d : Text) (i : ℕ) → find p s ≡ some i → find p (s ++ d) ≡ some i
unfolding find
find-append_some [] [] [] i h = h
find-append_some [] [] (x ∷ d) i h = h
find-append_some (c ∷ p) [] d i h = ground arith
find-append_some p (c ∷ s) d i h = elim (Option-cases (find p s)) [
  | inl e ↦ ground (arith, starts_with-append_true p (c ∷ s) d)
  | inr (j, e) ↦
      ground (arith, find_bound p s j e, find-append_some p s d j e, starts_with-append p (c ∷ s) d)
]

pub map_zero-add : (o : Option ℕ) → o ≡ Option.map (λ i. 0 + i) o
map_zero-add none = refl
map_zero-add (some i) = ground arith

-- No match so far, and at most a proper prefix of `p` left in `s`: the text before `s` is settled.
pub find-append_settled :
    (p r s d : Text)
    → length p ≤ suc (length s)
    → find p (r ++ s) ≡ none
    → find p (r ++ (s ++ d)) ≡ Option.map (λ i. length r + i) (find p (s ++ d))
unfolding find
find-append_settled p [] s d h e = map_zero-add (find p (s ++ d))
find-append_settled p (c ∷ r) s d h e = ground (
  arith,
  find-append_settled p r s d h,
  starts_with-append p (c ∷ (r ++ s)) d,
  length-append r s,
  append_assoc r s d,
)

-- No match reaches over a character that the pattern does not hold.
pub starts_with-barrier :
    (p x s : Text) (c : ℕ)
    → any (λ a. a == c) p ≡ false
    → starts_with p (x ++ c ∷ s) ≡ starts_with p x
unfolding starts_with
starts_with-barrier [] x s c h = refl
starts_with-barrier (a ∷ p) [] s c h = ground arith
starts_with-barrier (a ∷ p) (b ∷ x) s c h = ground (arith, starts_with-barrier p x s c)

find_here : (p s : Text) → starts_with p s ≡ true → find p s ≡ some 0
unfolding find
find_here p [] h = rw h
find_here p (c ∷ s) h = rw h

-- A pattern that stands behind such a character is found there, if it does not stand before it.
pub find-barrier :
    (p x s : Text) (c : ℕ)
    → any (λ a. a == c) p ≡ false
    → p ≢ []
    → find p x ≡ none
    → starts_with p s ≡ true
    → find p (x ++ c ∷ s) ≡ some (length x + 1)
unfolding find
find-barrier [] x s c h ne e m = absurd (ne refl)
find-barrier (a ∷ p) [] s c h ne e m = ground (arith, find_here (a ∷ p) s)
find-barrier (a ∷ p) (b ∷ x) s c h ne e m =
    ground (arith, starts_with-barrier (a ∷ p) (b ∷ x) s c, find-barrier (a ∷ p) x s c h ne)
