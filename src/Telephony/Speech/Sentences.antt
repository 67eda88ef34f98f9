-- ===== src/Telephony/Speech/Sentences.antt =====
-- Sentence ends (src/openvoice/telephony/livekit_agent.py): where they are, and how the loop over them ends.
use open_voice.Base.{
  ℕ, zero, suc, ◌≡◌, ◌<◌, ◌≤◌, refl, sym, ap, ap₂, ◌∙◌, inl, inr, none, some, List, [], ◌∷◌, ◌++◌,
  append_assoc, arith, Option-cases, length, take, drop, length-drop, length-append, take-append,
  drop-append,
}
use open_voice.Base.Text.{Text}
use open_voice.Telephony.Speech.{find_sentence_end, spoken, cut_sentences}

-- A sentence end is past the first character and within the text.
pub find_sentence_end-bounds :
    (s : Text) (cut : ℕ) → find_sentence_end s ≡ some cut → (0 < cut) × (cut ≤ length s)
unfolding find_sentence_end
find_sentence_end-bounds [] cut h = cc
find_sentence_end-bounds (c ∷ []) cut h = cc
find_sentence_end-bounds (c ∷ d ∷ s) cut h = elim (Option-cases (find_sentence_end (d ∷ s))) [
  | inl missing ↦ ground arith
  | inr (k, e) ↦ ground (arith, find_sentence_end-bounds (d ∷ s) k e)
]

-- What is appended does not move a sentence end that is found.
pub find_sentence_end-append :
    (s t : Text) (cut : ℕ) → find_sentence_end s ≡ some cut → find_sentence_end (s ++ t) ≡ some cut
unfolding find_sentence_end
find_sentence_end-append [] t cut h = cc
find_sentence_end-append (c ∷ []) t cut h = cc
find_sentence_end-append (c ∷ d ∷ s) t cut h = elim (Option-cases (find_sentence_end (d ∷ s))) [
  | inl missing ↦ ground arith
  | inr (k, e) ↦ ground (arith, find_sentence_end-append (d ∷ s) t k e)
]

-- the sentences of a text that ends here
abbrev pub sentences : ℕ → Text → List Text
sentences n s = let (complete, rest) = cut_sentences n s in complete ++ spoken rest

pub cut_none : (n : ℕ) (s : Text) → find_sentence_end s ≡ none → cut_sentences n s ≡ ([], s)
unfolding cut_sentences
cut_none zero s h = refl
cut_none (suc n) s h = ground arith

pub cut_some :
    (n : ℕ) (s : Text) (cut : ℕ)
    → find_sentence_end s ≡ some cut
    → cut_sentences (suc n) s ≡ (
        let (complete, rest) = cut_sentences n (drop cut s) in
        (spoken (take cut s) ++ complete, rest))
unfolding cut_sentences
cut_some n s cut h = ground arith

pub sentences-some :
    (n : ℕ) (s : Text) (cut : ℕ)
    → find_sentence_end s ≡ some cut
    → sentences (suc n) s ≡ spoken (take cut s) ++ sentences n (drop cut s)
sentences-some n s cut h =
    ap (λ (p : List Text × Text). p.0 ++ spoken p.1) (cut_some n s cut h)
    ∙ append_assoc (spoken (take cut s)) (cut_sentences n (drop cut s)).0
        (spoken (cut_sentences n (drop cut s)).1)

sentences-none : (n : ℕ) (s : Text) → find_sentence_end s ≡ none → sentences n s ≡ spoken s
sentences-none n s h = ap (λ (p : List Text × Text). p.0 ++ spoken p.1) (cut_none n s h)

pub no_end_within : (s : Text) → length s ≤ 0 → find_sentence_end s ≡ none
unfolding find_sentence_end
no_end_within [] h = refl
no_end_within (c ∷ s) h = ground arith

fuel_none : (m n : ℕ) (s : Text) → find_sentence_end s ≡ none → sentences m s ≡ sentences n s
fuel_none m n s h = sentences-none m s h ∙ sym (sentences-none n s h)

shorter :
    (s : Text) (cut n : ℕ)
    → find_sentence_end s ≡ some cut
    → length s ≤ suc n
    → length (drop cut s) ≤ n
shorter s cut n h le = omega (arith, length-drop cut s, (find_sentence_end-bounds s cut h).0)

-- Any fuel that is at least the length does.
pub sentences_fuel :
    (m n : ℕ) (s : Text) → length s ≤ m → length s ≤ n → sentences m s ≡ sentences n s
sentences_fuel zero n s hm hn = fuel_none zero n s (no_end_within s hm)
sentences_fuel (suc m) zero s hm hn = fuel_none (suc m) zero s (no_end_within s hn)
sentences_fuel (suc m) (suc n) s hm hn = elim (Option-cases (find_sentence_end s)) [
  | inl missing ↦ fuel_none (suc m) (suc n) s missing
  | inr (cut, h) ↦
      sentences-some m s cut h
      ∙ ap (λ r. spoken (take cut s) ++ r)
          (sentences_fuel m n (drop cut s) (shorter s cut m h hm) (shorter s cut n h hn))
      ∙ sym (sentences-some n s cut h)
]

-- The loop ends because there is no further sentence end.
pub cut_sentences-done :
    (n : ℕ) (s : Text) → length s ≤ n → find_sentence_end (cut_sentences n s).1 ≡ none
unfolding cut_sentences
cut_sentences-done zero s h = no_end_within s h
cut_sentences-done (suc n) s h = elim (Option-cases (find_sentence_end s)) [
  | inl missing ↦
      ap (λ (p : List Text × Text). find_sentence_end p.1) (cut_none (suc n) s missing) ∙ missing
  | inr (cut, e) ↦
      ap (λ (p : List Text × Text). find_sentence_end p.1) (cut_some n s cut e)
      ∙ cut_sentences-done n (drop cut s) (shorter s cut n e h)
]

-- what is spoken when `t` follows what the loop has left
abbrev pub continued : List Text × Text → Text → List Text
continued (complete, rest) t = complete ++ sentences (length (rest ++ t)) (rest ++ t)

cut_append :
    (s t : Text) (cut : ℕ)
    → find_sentence_end s ≡ some cut
    → sentences (length (s ++ t)) (s ++ t)
      ≡ spoken (take cut s) ++ sentences (length (drop cut s ++ t)) (drop cut s ++ t)
cut_append s t cut h =
    sentences_fuel (length (s ++ t)) (suc (length (s ++ t))) (s ++ t) (omega arith) (omega arith)
    ∙ sentences-some (length (s ++ t)) (s ++ t) cut (find_sentence_end-append s t cut h)
    ∙ ap₂ (λ a b. spoken a ++ sentences (length (s ++ t)) b)
        (take-append cut s t (find_sentence_end-bounds s cut h).1)
        (drop-append cut s t (find_sentence_end-bounds s cut h).1)
    ∙ ap (λ r. spoken (take cut s) ++ r)
        (sentences_fuel (length (s ++ t)) (length (drop cut s ++ t)) (drop cut s ++ t)
          (omega (arith, length-drop cut s, length-append (drop cut s) t, length-append s t))
          (omega arith))

-- Text that arrives after the loop goes on in what the loop has left.
pub sentences-append :
    (n : ℕ) (s t : Text)
    → length s ≤ n
    → sentences (length (s ++ t)) (s ++ t) ≡ continued (cut_sentences n s) t
unfolding cut_sentences
sentences-append zero s t h = refl
sentences-append (suc n) s t h = elim (Option-cases (find_sentence_end s)) [
  | inl missing ↦ ap (λ p. continued p t) (sym (cut_none (suc n) s missing))
  | inr (cut, e) ↦
      cut_append s t cut e
      ∙ ap (λ r. spoken (take cut s) ++ r) (sentences-append n (drop cut s) t (shorter s cut n e h))
      ∙ sym (
          append_assoc (spoken (take cut s)) (cut_sentences n (drop cut s)).0 (
            sentences (length ((cut_sentences n (drop cut s)).1 ++ t))
              ((cut_sentences n (drop cut s)).1 ++ t)))
      ∙ ap (λ p. continued p t) (sym (cut_some n s cut e))
]
