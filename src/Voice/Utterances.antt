-- ===== src/Voice/Utterances.antt =====
-- One utterance and faster-whisper's provider (src/openvoice/stt/providers/faster_whisper.py).
use open_voice.Base.{
  ◌*◌, ◌<◌, ℕ, Bool-cases, inl, inr, ◌%◌, ◌≡◌, ◌≢◌, refl, Bool, true, false, not, ◌&&◌, ◌||◌,
  Option, none, some, List, [], ◌∷◌, ◌++◌, map, arith, ◌==◌, is_empty, length, length-append,
  concat, All,
}
use open_voice.Base.Text.{Text, codes, strip}
use open_voice.Base.Result.{Error, Result, ok, err}
use open_voice.Telephony.Agent.{TranscriptSegment, Frame, VadEvent, transcribe_frames}
use open_voice.Voice.{
  Numpy, Whisper, resample_pcm16, at_least_one, final_segment, transcribed, transcribe_audio,
  transcribe_raw, transcribe_stream,
}

-- bytes of 16-bit samples
abbrev pub IsWhole : List ℕ → Type 0
IsWhole pcm = length pcm % 2 ≡ 0

whole_append : (xs ys : List ℕ) → IsWhole xs → IsWhole ys → IsWhole (xs ++ ys)
whole_append xs ys h k = omega (arith, length-append xs ys, h, k)

concat-IsWhole : (frames : List (List ℕ)) → All IsWhole frames → IsWhole (concat frames)
concat-IsWhole [] h = refl
concat-IsWhole (f ∷ frames) (h, hs) = whole_append f (concat frames) h (concat-IsWhole frames hs)

-- an end of speech that has frames
abbrev pub is_utterance : VadEvent → Bool
is_utterance e = e.end_of_speech && not (is_empty e.frames)

-- frames of whole samples, at a rate
abbrev pub AreWhole : VadEvent → Type 0
AreWhole e = All (λ (f : Frame). IsWhole f.data_bytes × (0 < f.sample_rate)) e.frames

-- numpy reads and writes whole samples
pub record ReadsSamples {Sample : Type 0} (np : Numpy Sample) : Type 0 where
  pub reads :
      (pcm : List ℕ) → IsWhole pcm → (samples : List Sample) × (np.frombuffer pcm ≡ ok samples)
  pub writes : (samples : List Sample) → IsWhole (np.tobytes samples)

abbrev pub bytes_of : List Frame → List (List ℕ)
bytes_of frames = map (λ (f : Frame). f.data_bytes) frames

bytes-IsWhole :
    (frames : List Frame)
    → All (λ (f : Frame). IsWhole f.data_bytes × (0 < f.sample_rate)) frames
    → All IsWhole (bytes_of frames)
bytes-IsWhole [] h = tt
bytes-IsWhole (f ∷ frames) (h, hs) = (h.0, bytes-IsWhole frames hs)

-- the rate of an utterance: that of its first frame
abbrev pub rate_of : List Frame → ℕ
rate_of [] = 0
rate_of (f ∷ frames) = f.sample_rate

positive : (n : ℕ) → 0 < n → (n == 0) ≡ false
positive n h = ground arith

has_frames : (e : VadEvent) → is_utterance e ≡ true → is_empty e.frames ≡ false
has_frames e h = ground arith

not_empty : true ≢ false
not_empty h = cc

module _ {Sample : Type 0} (np : Numpy Sample) (whisper : Whisper np) where
  -- the audio of an utterance: its bytes in order, at the rate of the model
  abbrev pub IsAudio : List Frame → List Sample → Type 0
  IsAudio frames audio =
      (pcm : List ℕ) × (resample_pcm16 np (rate_of frames) 16000 (concat (bytes_of frames))
        ≡ ok pcm)
      × (np.frombuffer pcm ≡ ok audio)

  -- what the model hears in it, without blanks at the ends
  abbrev pub IsHeardAs : List Frame → Text → Type 0
  IsHeardAs frames text =
      (audio : List Sample) × (texts : List Text) × IsAudio frames audio
      × (whisper.transcribe audio whisper.language ≡ ok texts)
      × (text ≡ strip (concat texts))

  -- what the provider gives for one utterance
  pub data Once (frames : List Frame) : List TranscriptSegment × Option Error → Type 0 where
    silent : concat (bytes_of frames) ≡ [] → Once frames ([], none)
    said :
        (audio : List Sample) (texts : List Text)
        → IsAudio frames audio
        → whisper.transcribe audio whisper.language ≡ ok texts
        → Once frames (final_segment np whisper.language (concat texts) ∷ [], none)
    failed :
        (audio : List Sample) (x : Error)
        → IsAudio frames audio
        → whisper.transcribe audio whisper.language ≡ err x
        → Once frames (
          [],
          some (
              Error.stt_error
                (codes "faster-whisper transcription failed: " ++ whisper.print_error x)),
        )

  answer-Once :
      (frames : List Frame) (audio : List Sample) (answer : Result (List Text))
      → IsAudio frames audio
      → whisper.transcribe audio whisper.language ≡ answer
      → Once frames (transcribed np whisper answer)
  answer-Once frames audio (ok texts) a h = said audio texts a h
  answer-Once frames audio (err x) a h = failed audio x a h

  audio-Once :
      ReadsSamples np
      → (frames : List Frame) (pcm : List ℕ)
      → resample_pcm16 np (rate_of frames) 16000 (concat (bytes_of frames)) ≡ ok pcm
      → IsWhole pcm
      → Once frames (transcribe_audio np whisper pcm)
  audio-Once good frames pcm r h =
      let (audio, read) = good.reads pcm h in
      rw read (answer-Once frames audio _ (pcm, r, read) refl)

  resample-IsWhole :
      ReadsSamples np
      → (from_rate to_rate : ℕ) (pcm : List ℕ) → 0 < from_rate
      → IsWhole pcm
      → (out : List ℕ) × (resample_pcm16 np from_rate to_rate pcm ≡ ok out) × IsWhole out
  unfolding resample_pcm16
  resample-IsWhole good from_rate to_rate pcm pos h =
      elim (Bool-cases (from_rate == to_rate || is_empty pcm)) [
        | inl same ↦ (pcm, rw same refl, h)
        | inr other ↦
            let (samples, read) = good.reads pcm h in
            let count = at_least_one np (np.round_ratio (np.size samples * to_rate) from_rate) in
            (
              np.tobytes (np.interp count samples),
              rw (other, read, positive from_rate pos) refl,
              good.writes (np.interp count samples),
            )
      ]

  native_lem :
      (rate : ℕ) (pcm : List ℕ) → (rate == 16000) ≡ true → resample_pcm16 np rate 16000 pcm ≡ ok pcm
  unfolding resample_pcm16
  native_lem rate pcm h = rw h refl

  raw-Once :
      ReadsSamples np
      → (frames : List Frame) (raw : List ℕ) → concat (bytes_of frames) ≡ raw
      → 0 < rate_of frames
      → IsWhole raw
      → Once frames (transcribe_raw np whisper raw (rate_of frames))
  raw-Once good frames [] is pos h = silent is
  raw-Once good frames (b ∷ raw) is pos h = elim (Bool-cases (rate_of frames == 16000)) [
    | inl native ↦
        rw native (
          audio-Once good frames (b ∷ raw) (rw is (native_lem (rate_of frames) (b ∷ raw) native)) h)
    | inr other ↦
        let (out, done, whole) = resample-IsWhole good (rate_of frames) 16000 (b ∷ raw) pos h in
        rw (other, done) (audio-Once good frames out (rw is done) whole)
  ]

  frames-Once :
      ReadsSamples np
      → (frames : List Frame) → is_empty frames ≡ false
      → All (λ (f : Frame). IsWhole f.data_bytes × (0 < f.sample_rate)) frames
      → Once frames (transcribe_frames (transcribe_stream np whisper) frames)
  unfolding transcribe_stream
  frames-Once good [] ne h = absurd (not_empty ne)
  frames-Once good (f ∷ frames) ne h =
      raw-Once good (f ∷ frames) (concat (bytes_of (f ∷ frames))) refl h.0.1
        (concat-IsWhole (bytes_of (f ∷ frames)) (bytes-IsWhole (f ∷ frames) h))

  pub utterance-Once :
      ReadsSamples np
      → (e : VadEvent) → is_utterance e ≡ true
      → AreWhole e
      → Once e.frames (transcribe_frames (transcribe_stream np whisper) e.frames)
  utterance-Once good e u h = frames-Once good e.frames (has_frames e u) h
