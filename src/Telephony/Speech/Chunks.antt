-- ===== src/Telephony/Speech/Chunks.antt =====
-- `tts_node` (src/openvoice/telephony/livekit_agent.py): what is spoken of a reply does not depend on how it
-- was streamed, and is all of it.
use open_voice.Base.{
  ℕ, zero, suc, ◌≡◌, refl, sym, ap, ap₂, ◌∙◌, inl, inr, not, none, List, [], ◌∷◌, ◌++◌,
  append_assoc, append-nil, arith, Bool-cases, Option-cases, keep, length, take, drop, concat,
  concat-append, take-append-drop, is_empty, if◌then◌else◌,
}
use open_voice.Base.Text.{Text, is_space, lstrip, rstrip, strip, rcons}
use open_voice.Telephony.Speech.{find_sentence_end, spoken, cut_sentences, tts_node}
use open_voice.Telephony.Speech.Sentences.{
  sentences, sentences-append, cut_none, sentences-some, cut_sentences-done,
}

none_left : (n : ℕ) (s : Text) → find_sentence_end s ≡ none → sentences n s ≡ spoken s
none_left n s h = ap (λ (p : List Text × Text). p.0 ++ spoken p.1) (cut_none n s h)

streamed_lem :
    (buffer : Text) (chunks : List Text)
    → find_sentence_end buffer ≡ none
    → tts_node buffer chunks
      ≡ sentences (length (buffer ++ concat chunks)) (buffer ++ concat chunks)
unfolding tts_node
streamed_lem buffer [] h = rw (append-nil buffer) (sym (none_left (length buffer) buffer h))
streamed_lem buffer (chunk ∷ chunks) h =
    ap (λ r. (cut_sentences (length (buffer ++ chunk)) (buffer ++ chunk)).0 ++ r)
      (streamed_lem (cut_sentences (length (buffer ++ chunk)) (buffer ++ chunk)).1 chunks
        (cut_sentences-done (length (buffer ++ chunk)) (buffer ++ chunk) (omega arith)))
    ∙ sym (
        sentences-append (length (buffer ++ chunk)) (buffer ++ chunk) (concat chunks) (omega arith))
    ∙ ap (λ r. sentences (length r) r) (append_assoc buffer chunk (concat chunks))

-- What is synthesized of a reply is the same, sentence by sentence, however the reply was cut into
-- chunks.
pub tts_node-concat : (chunks : List Text) → tts_node [] chunks ≡ tts_node [] (concat chunks ∷ [])
unfolding find_sentence_end
tts_node-concat chunks =
    streamed_lem [] chunks no_end
    ∙ sym (
        streamed_lem [] (concat chunks ∷ []) no_end
        ∙ ap (λ r. sentences (length r) r) (append-nil (concat chunks)))
  where
    no_end : find_sentence_end [] ≡ none
    no_end = refl

-- the characters that are not blank
abbrev pub visible : Text → Text
visible s = keep (λ c. not (is_space c)) s

visible-append : (s t : Text) → visible (s ++ t) ≡ visible s ++ visible t
visible-append [] t = refl
visible-append (c ∷ s) t = elim (Bool-cases (is_space c)) [
  | inl blank ↦ rw blank (visible-append s t)
  | inr seen ↦ rw seen (ap (λ r. c ∷ r) (visible-append s t))
]

visible-lstrip : (s : Text) → visible (lstrip s) ≡ visible s
unfolding lstrip
visible-lstrip [] = refl
visible-lstrip (c ∷ s) = elim (Bool-cases (is_space c)) [
  | inl blank ↦ ground (arith, visible-lstrip s)
  | inr seen ↦ ground arith
]

visible-rcons : (c : ℕ) (s : Text) → visible (rcons c s) ≡ visible (c ∷ s)
visible-rcons c [] = ground arith
visible-rcons c (d ∷ s) = refl

visible-rstrip : (s : Text) → visible (rstrip s) ≡ visible s
unfolding rstrip
visible-rstrip [] = refl
visible-rstrip (c ∷ s) = visible-rcons c (rstrip s) ∙ ground (arith, visible-rstrip s)

visible-strip : (s : Text) → visible (strip s) ≡ visible s
unfolding strip
visible-strip s = visible-rstrip (lstrip s) ∙ visible-lstrip s

visible-spoken : (s : Text) → visible (concat (spoken s)) ≡ visible s
visible-spoken s = from_strip (strip s) ∙ visible-strip s
  where
    from_strip : (t : Text) → visible (concat (if is_empty t then [] else t ∷ [])) ≡ visible t
    from_strip [] = refl
    from_strip (c ∷ t) = ap visible (append-nil (c ∷ t))

visible-concat-append :
    (xs ys : List Text) → visible (concat (xs ++ ys)) ≡ visible (concat xs) ++ visible (concat ys)
visible-concat-append xs ys =
    ap visible (concat-append xs ys) ∙ visible-append (concat xs) (concat ys)

visible-sentences : (n : ℕ) (s : Text) → visible (concat (sentences n s)) ≡ visible s
unfolding cut_sentences
visible-sentences zero s = visible-spoken s
visible-sentences (suc n) s = elim (Option-cases (find_sentence_end s)) [
  | inl missing ↦ ap (λ r. visible (concat r)) (none_left (suc n) s missing) ∙ visible-spoken s
  | inr (cut, h) ↦
      ap (λ r. visible (concat r)) (sentences-some n s cut h)
      ∙ visible-concat-append (spoken (take cut s)) (sentences n (drop cut s))
      ∙ ap₂ ◌++◌ (visible-spoken (take cut s)) (visible-sentences n (drop cut s))
      ∙ sym (visible-append (take cut s) (drop cut s))
      ∙ ap visible (take-append-drop cut s)
]

-- No character of the reply is lost but blanks, none is added or said twice, and their order is
-- kept, however the reply was cut into chunks.
pub tts_node-visible :
    (chunks : List Text) → visible (concat (tts_node [] chunks)) ≡ visible (concat chunks)
unfolding find_sentence_end
tts_node-visible chunks =
    ap (λ r. visible (concat r)) (streamed_lem [] chunks refl)
    ∙ visible-sentences (length (concat chunks)) (concat chunks)
