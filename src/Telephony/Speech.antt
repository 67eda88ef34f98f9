-- ===== src/Telephony/Speech.antt =====
-- `OpenVoiceAgent.tts_node`, `_synthesize_to_frames` and `_find_sentence_end` of
-- src/openvoice/telephony/livekit_agent.py: the reply, cut into the sentences that are synthesized.
pub mod Sentences
pub mod Chunks
pub mod Frames
use open_voice.Base.{
  ℕ, zero, suc, ◌+◌, ◌-◌, ◌/◌, ◌%◌, Bool, true, false, ◌&&◌, ◌||◌, Option, none, some, List, [],
  ◌∷◌, ◌++◌, ◌==◌, if◌then◌else◌, length, take, drop, concat, is_empty,
}
use mathlib.Core.Option
use open_voice.Base.Text.{Text, strip}

-- `char in ".!?\n"`
abbrev pub is_stop : ℕ → Bool
is_stop c = c == 46 || c == 33 || c == 63 || c == 10

-- `buffer[i + 1] in " \n"`
abbrev pub is_gap : ℕ → Bool
is_gap c = c == 32 || c == 10

-- `_find_sentence_end`
unfoldable pub find_sentence_end : Text → Option ℕ
find_sentence_end [] = none
find_sentence_end (c ∷ []) = none
find_sentence_end (c ∷ d ∷ rest) =
    if is_stop c && is_gap d then some 1 else Option.map suc (find_sentence_end (d ∷ rest))

-- what is synthesized of a piece: nothing, if it is blank
abbrev pub spoken : Text → List Text
spoken piece = if is_empty (strip piece) then [] else strip piece ∷ []

-- The `while` loop: the complete sentences, and the buffer that is left. A round takes at least
-- one character off the buffer, so the buffer's length is fuel enough.
unfoldable pub cut_sentences : ℕ → Text → List Text × Text
cut_sentences zero buffer = ([], buffer)
cut_sentences (suc n) buffer = elim (find_sentence_end buffer) [
  | none ↦ ([], buffer)
  | some cut ↦
      let (sentences, rest) = cut_sentences n (drop cut buffer) in
      (spoken (take cut buffer) ++ sentences, rest)
]

-- `tts_node`, from a buffer on: the texts that are synthesized, in order
unfoldable pub tts_node : Text → List Text → List Text
tts_node buffer [] = spoken buffer
tts_node buffer (chunk ∷ chunks) =
    let (sentences, rest) = cut_sentences (length (buffer ++ chunk)) (buffer ++ chunk) in
    sentences ++ tts_node rest chunks

-- an even number of bytes
abbrev pub even_bytes : List ℕ → List ℕ
even_bytes pcm = if length pcm % 2 == 0 then pcm else take (length pcm - 1) pcm

-- `rtc.AudioFrame`: its data and the samples per channel
pub record AudioFrame : Type 0 where
  pub data_bytes : List ℕ
  pub samples_per_channel : ℕ

-- the body of the loop of `_synthesize_to_frames`
unfoldable pub frames_of : List ℕ → List AudioFrame
frames_of pcm =
    if length (even_bytes pcm) / 2 == 0
    then []
    else record { data_bytes = even_bytes pcm; samples_per_channel = length (even_bytes pcm) / 2 }
      ∷ []

-- `_synthesize_to_frames`, of the chunks that the provider yields
unfoldable pub synthesize_to_frames : List (List ℕ) → List AudioFrame
synthesize_to_frames [] = []
synthesize_to_frames (pcm ∷ chunks) = frames_of pcm ++ synthesize_to_frames chunks
