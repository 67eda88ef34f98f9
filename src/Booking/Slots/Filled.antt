-- ===== src/Booking/Slots/Filled.antt =====
-- A list that a loop fills up to a limit.
use open_voice.Base.{
  ℕ, zero, suc, ◌-◌, ◌≤◌, ◌<◌, ◌≡◌, refl, sym, ap, ◌∙◌, inl, inr, List, [], ◌∷◌, ◌++◌, append-nil,
  append_assoc, arith, Bool-cases, length, take, ltb, length-append,
}

module _ {A : Type 0} where
  -- `cs`, and of `xs` as many as there is room for
  abbrev pub filled : ℕ → List A → List A → List A
  filled limit cs xs = cs ++ take (limit - length cs) xs

  take_nil : (n : ℕ) → take {A = A} n [] ≡ []
  take_nil zero = refl
  take_nil (suc n) = refl

  pub filled_nil : (limit : ℕ) (cs : List A) → filled limit cs [] ≡ cs
  filled_nil limit cs = ap (λ x. cs ++ x) (take_nil (limit - length cs)) ∙ append-nil cs

  pub filled_full : (limit : ℕ) (cs xs : List A) → limit ≤ length cs → filled limit cs xs ≡ cs
  filled_full limit cs xs h =
      let none_left : limit - length cs ≡ 0 = omega arith in
      ap (λ n. cs ++ take n xs) none_left ∙ append-nil cs

  pub filled_cons :
      (limit : ℕ) (cs xs : List A) (x : A)
      → length cs < limit
      → filled limit (cs ++ x ∷ []) xs ≡ filled limit cs (x ∷ xs)
  filled_cons limit cs xs x h =
      let room : suc (limit - length (cs ++ x ∷ [])) ≡ limit - length cs =
        omega (arith, length-append cs (x ∷ [])) in
      append_assoc cs (x ∷ []) (take (limit - length (cs ++ x ∷ [])) xs)
      ∙ ap (λ n. cs ++ take n (x ∷ xs)) room

  pub filled-append :
      (limit : ℕ) (cs xs ys : List A)
      → filled limit (filled limit cs xs) ys ≡ filled limit cs (xs ++ ys)
  filled-append limit cs [] ys = ap (λ x. filled limit x ys) (filled_nil limit cs)
  filled-append limit cs (x ∷ xs) ys = elim (Bool-cases (ltb (length cs) limit)) [
    | inl room ↦
        ap (λ z. filled limit z ys) (sym (filled_cons limit cs xs x (ground arith)))
        ∙ filled-append limit (cs ++ x ∷ []) xs ys
        ∙ filled_cons limit cs (xs ++ ys) x (ground arith)
    | inr full ↦
        ap (λ z. filled limit z ys) (filled_full limit cs (x ∷ xs) (ground arith))
        ∙ filled_full limit cs ys (ground arith)
        ∙ sym (filled_full limit cs (x ∷ (xs ++ ys)) (ground arith))
  ]
