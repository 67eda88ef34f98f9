-- ===== src/Voice.antt =====
-- The local speech providers: src/openvoice/audio.py, src/openvoice/stt/providers/faster_whisper.py and
-- src/openvoice/tts/providers/piper.py. numpy and the two models are parameters.
pub mod Utterances
pub mod Heard
pub mod Elevenlabs
mod Tests
use open_voice.Base.{
  ℕ, zero, suc, ◌*◌, true, ◌||◌, Option, none, some, List, [], ◌∷◌, ◌++◌, ◌==◌, is_empty, concat,
  if◌then◌else◌,
}
use open_voice.Base.Text.{Text, codes, strip}
use open_voice.Base.Result.{Error, Result, ok, err, then_ok}
use open_voice.Telephony.Agent.{TranscriptSegment, Transcribe}

-- The part of numpy that is used. A sample is whatever an array holds.
pub record Numpy (Sample : Type 0) : Type 0 where
  -- `frombuffer(..., int16).astype(float32)`: the bytes must be whole samples
  pub frombuffer : List ℕ → Result (List Sample)
  pub size : List Sample → ℕ
  -- `interp` at `linspace(0, size - 1, count)`
  pub interp : ℕ → List Sample → List Sample
  -- `astype(int16).tobytes()`
  pub tobytes : List Sample → List ℕ
  -- `round(a / b)`
  pub round_ratio : ℕ → ℕ → ℕ

module _ {Sample : Type 0} (np : Numpy Sample) where
  -- `max(1, ...)`
  abbrev pub at_least_one : ℕ → ℕ
  at_least_one zero = 1
  at_least_one (suc n) = suc n

  -- the division by the rate raises for a rate of 0
  abbrev pub resampled : ℕ → ℕ → List Sample → Result (List ℕ)
  resampled from_rate to_rate samples =
      if from_rate == 0
      then err (Error.other (codes "ZeroDivisionError"))
      else ok (
          np.tobytes (
            np.interp (at_least_one (np.round_ratio (np.size samples * to_rate) from_rate))
              samples))

  -- `resample_pcm16`
  unfoldable pub resample_pcm16 : ℕ → ℕ → List ℕ → Result (List ℕ)
  resample_pcm16 from_rate to_rate pcm =
      if from_rate == to_rate || is_empty pcm
      then ok pcm
      else then_ok (np.frombuffer pcm) (resampled from_rate to_rate)

  abbrev pub whisper_sample_rate : ℕ
  whisper_sample_rate = 16000

  -- `FasterWhisperSTTProvider` with its model: the texts of the segments, of the audio and a language
  pub record Whisper : Type 0 where
    pub transcribe : List Sample → Option Text → Result (List Text)
    pub language : Option Text
    -- `str(exc)`
    pub print_error : Error → Text

  abbrev pub final_segment : Option Text → Text → TranscriptSegment
  final_segment language text = record { text = strip text; is_final = true; language = language }

  -- `except Exception`
  abbrev pub transcribed : Whisper → Result (List Text) → List TranscriptSegment × Option Error
  transcribed whisper (ok texts) = (final_segment whisper.language (concat texts) ∷ [], none)
  transcribed whisper (err e) = (
    [],
    some (Error.stt_error (codes "faster-whisper transcription failed: " ++ whisper.print_error e)),
  )

  abbrev pub or_end :
      {A : Type 0}
      → Result A
      → (A → List TranscriptSegment × Option Error)
      → List TranscriptSegment × Option Error
  or_end (ok a) f = f a
  or_end (err e) f = ([], some e)

  -- the audio at the rate of the model
  abbrev pub transcribe_audio : Whisper → List ℕ → List TranscriptSegment × Option Error
  transcribe_audio whisper raw =
      or_end (np.frombuffer raw)
        λ audio. transcribed whisper (whisper.transcribe audio whisper.language)

  -- the joined frames
  abbrev pub transcribe_raw : Whisper → List ℕ → ℕ → List TranscriptSegment × Option Error
  transcribe_raw whisper [] sample_rate = ([], none)
  transcribe_raw whisper raw sample_rate =
      if sample_rate == whisper_sample_rate
      then transcribe_audio whisper raw
      else or_end (resample_pcm16 sample_rate whisper_sample_rate raw) (transcribe_audio whisper)

  -- `FasterWhisperSTTProvider.transcribe_stream`
  unfoldable pub transcribe_stream : Whisper → Transcribe
  transcribe_stream whisper audio_frames sample_rate =
      transcribe_raw whisper (concat audio_frames) sample_rate

  -- `PiperTTSProvider` with its voice: the chunks of a text, and the voice's own rate
  pub record Piper : Type 0 where
    pub synthesize : Text → Result (List (List ℕ))
    pub native_rate : ℕ
    pub print_error : Error → Text

  -- the loop over the chunks: what is yielded, and the exception that ended it, if one did
  abbrev pub resample_chunk :
      Result (List ℕ) → List (List ℕ) × Option Error → List (List ℕ) × Option Error
  resample_chunk (ok pcm) (rest, failure) = (pcm ∷ rest, failure)
  resample_chunk (err e) (rest, failure) = ([], some e)

  abbrev pub resample_chunks : ℕ → ℕ → List (List ℕ) → List (List ℕ) × Option Error
  resample_chunks native_rate sample_rate [] = ([], none)
  resample_chunks native_rate sample_rate (chunk ∷ chunks) =
      resample_chunk (resample_pcm16 native_rate sample_rate chunk)
        (resample_chunks native_rate sample_rate chunks)

  abbrev pub synthesized : Piper → ℕ → Result (List (List ℕ)) → List (List ℕ) × Option Error
  synthesized piper sample_rate (ok chunks) = resample_chunks piper.native_rate sample_rate chunks
  synthesized piper sample_rate (err e) =
      ([], some (Error.tts_error (codes "Piper synthesis failed: " ++ piper.print_error e)))

  -- `PiperTTSProvider.synthesize`
  unfoldable pub synthesize : Piper → ℕ → Text → List (List ℕ) × Option Error
  synthesize piper sample_rate text = synthesized piper sample_rate (piper.synthesize text)
