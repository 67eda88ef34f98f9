-- ===== src/Telephony/Speech/Frames.antt =====
-- `_synthesize_to_frames` (src/openvoice/telephony/livekit_agent.py): the audio frames of a synthesized text.
use open_voice.Base.{
  ℕ, ◌-◌, ◌*◌, ◌/◌, ◌%◌, ◌≡◌, ◌<◌, refl, sym, ap, ap₂, append-nil, append_assoc, ◌∙◌, inl, inr,
  true, false, List, [], ◌∷◌, ◌++◌, arith, Bool-cases, ◌==◌, length, take, length-take, All,
  All-append,
}
use open_voice.Telephony.Speech.{even_bytes, AudioFrame, frames_of, synthesize_to_frames}

-- whole 16-bit samples, and at least one
abbrev pub IsPcm16 : AudioFrame → Type 0
IsPcm16 f = (length f.data_bytes ≡ 2 * f.samples_per_channel) × (0 < f.samples_per_channel)

-- what the frames hold
abbrev pub samples : List AudioFrame → List ℕ
samples [] = []
samples (f ∷ fs) = f.data_bytes ++ samples fs

-- what the chunks hold, each less an odd byte at its end
abbrev pub whole_samples : List (List ℕ) → List ℕ
whole_samples [] = []
whole_samples (pcm ∷ chunks) = take (length pcm / 2 * 2) pcm ++ whole_samples chunks

take_all : (xs : List ℕ) → take (length xs) xs ≡ xs
take_all [] = refl
take_all (x ∷ xs) = ap (λ t. x ∷ t) (take_all xs)

even_bytes_lem : (pcm : List ℕ) → even_bytes pcm ≡ take (length pcm / 2 * 2) pcm
even_bytes_lem pcm = elim (Bool-cases (length pcm % 2 == 0)) [
  | inl even ↦ rw even (sym (ap (λ n. take n pcm) (even_count even) ∙ take_all pcm))
  | inr odd ↦ rw odd (ap (λ n. take n pcm) (odd_count odd))
]
  where
    even_count : (length pcm % 2 == 0) ≡ true → length pcm / 2 * 2 ≡ length pcm
    even_count h = ground arith

    odd_count : (length pcm % 2 == 0) ≡ false → length pcm - 1 ≡ length pcm / 2 * 2
    odd_count h = ground arith

even_length : (pcm : List ℕ) → length (even_bytes pcm) ≡ length pcm / 2 * 2
even_length pcm =
    ap length (even_bytes_lem pcm) ∙ omega (arith, length-take (length pcm / 2 * 2) pcm)

halves : (l n : ℕ) → l ≡ n / 2 * 2 → l ≡ 2 * (l / 2)
halves l n h = omega (arith, h)

positive : (l : ℕ) → (l / 2 == 0) ≡ false → 0 < l / 2
positive l h = ground arith

empty_lem : (l n : ℕ) → l ≡ n / 2 * 2 → (l / 2 == 0) ≡ true → l ≡ 0
empty_lem l n h e = ground arith

nil_lem : (xs : List ℕ) → length xs ≡ 0 → xs ≡ []
nil_lem [] h = refl
nil_lem (x ∷ xs) h = ground arith

frames_of-IsPcm16 : (pcm : List ℕ) → All IsPcm16 (frames_of pcm)
unfolding frames_of
frames_of-IsPcm16 pcm = elim (Bool-cases (length (even_bytes pcm) / 2 == 0)) [
  | inl empty ↦ rw (empty, frames_of) tt
  | inr full ↦
      rw (full, frames_of)
        (
          (
            halves (length (even_bytes pcm)) (length pcm) (even_length pcm),
            positive (length (even_bytes pcm)) full,
          ),
          tt,
        )
]

samples-frames_of : (pcm : List ℕ) → samples (frames_of pcm) ≡ even_bytes pcm
unfolding frames_of
samples-frames_of pcm = elim (Bool-cases (length (even_bytes pcm) / 2 == 0)) [
  | inl empty ↦
      rw (empty, frames_of)
        (sym (
          nil_lem (even_bytes pcm)
            (empty_lem (length (even_bytes pcm)) (length pcm) (even_length pcm) empty)))
  | inr full ↦ rw (full, frames_of) (append-nil (even_bytes pcm))
]

samples-append : (fs gs : List AudioFrame) → samples (fs ++ gs) ≡ samples fs ++ samples gs
samples-append [] gs = refl
samples-append (f ∷ fs) gs =
    ap (λ r. f.data_bytes ++ r) (samples-append fs gs)
    ∙ sym (append_assoc f.data_bytes (samples fs) (samples gs))

-- Whatever chunks of bytes the provider yields, every frame that is built has an even number of bytes,
-- two for each sample that it declares, and at least one sample; and together the frames hold
-- every chunk in order, less the last byte of each one of odd length.
pub synthesize_to_frames-IsPcm16 :
    (chunks : List (List ℕ))
    → All IsPcm16 (synthesize_to_frames chunks)
      × (samples (synthesize_to_frames chunks) ≡ whole_samples chunks)
unfolding synthesize_to_frames
synthesize_to_frames-IsPcm16 [] = (tt, refl)
synthesize_to_frames-IsPcm16 (pcm ∷ chunks) =
    let rest = synthesize_to_frames-IsPcm16 chunks in
    (
      All-append IsPcm16 (frames_of pcm) (synthesize_to_frames chunks) (frames_of-IsPcm16 pcm)
          rest.0,
      samples-append (frames_of pcm) (synthesize_to_frames chunks)
          ∙ ap₂ ◌++◌ (samples-frames_of pcm ∙ even_bytes_lem pcm) rest.1,
    )
