-- ===== src/Voice/Heard.antt =====
-- What `stt_node` (src/openvoice/telephony/livekit_agent.py) makes of faster-whisper's provider
-- (src/openvoice/stt/providers/faster_whisper.py).
use open_voice.Base.{◌≡◌, ◌≢◌, true, false, Option, none, some, List, [], ◌∷◌, ◌++◌, concat}
use open_voice.Base.Text.{Text, codes}
use open_voice.Base.Result.{Error, err}
use open_voice.Telephony.Agent.{
  TranscriptSegment, VadEvent, SpeechEvent, language_or_english, speech_events,
}
use open_voice.Voice.{Numpy, Whisper}
use open_voice.Voice.Utterances.{is_utterance, bytes_of, IsAudio, IsHeardAs}

-- the events of an utterance, and those of the rest unless it broke off
abbrev and_then :
    List TranscriptSegment
    → Option Error
    → List SpeechEvent × Option Error
    → List SpeechEvent × Option Error
and_then segments broken rest = elim broken [
  | some e ↦ (speech_events segments, some e)
  | none ↦ (speech_events segments ++ rest.0, rest.1)
]

module _ {Sample : Type 0} (np : Numpy Sample) (whisper : Whisper np) where
  -- What the events of the voice detection come to: what is yielded, and what ends it.
  pub data Hears : List VadEvent → List SpeechEvent × Option Error → Type 0 where
    over : Hears [] ([], none)
    passed_over :
        (e : VadEvent) {events : List VadEvent} {r : List SpeechEvent × Option Error}
        → is_utterance e ≡ false
        → Hears events r
        → Hears (e ∷ events) r
    no_sound :
        (e : VadEvent) {events : List VadEvent} {r : List SpeechEvent × Option Error}
        → is_utterance e ≡ true
        → concat (bytes_of e.frames) ≡ []
        → Hears events r
        → Hears (e ∷ events) r
    nothing_heard :
        (e : VadEvent) {events : List VadEvent} {r : List SpeechEvent × Option Error}
        → is_utterance e ≡ true
        → IsHeardAs np whisper e.frames []
        → Hears events r
        → Hears (e ∷ events) r
    heard :
        (e : VadEvent) (text : Text) {events : List VadEvent} {later : List SpeechEvent}
        {failure : Option Error}
        → is_utterance e ≡ true
        → IsHeardAs np whisper e.frames text
        → text ≢ []
        → Hears events (later, failure)
        → Hears (e ∷ events) ((language_or_english whisper.language, text) ∷ later, failure)
    broken_off :
        (e : VadEvent) (events : List VadEvent) (audio : List Sample) (x : Error)
        → is_utterance e ≡ true
        → IsAudio np whisper e.frames audio
        → whisper.transcribe audio whisper.language ≡ err x
        → Hears (e ∷ events) (
          [],
          some (
              Error.stt_error
                (codes "faster-whisper transcription failed: " ++ whisper.print_error x)),
        )
