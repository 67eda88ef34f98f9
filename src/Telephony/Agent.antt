-- ===== src/Telephony/Agent.antt =====
-- `OpenVoiceAgent.stt_node` and `llm_node` (src/openvoice/telephony/livekit_agent.py) and `CallPipeline`
-- (src/openvoice/telephony/pipeline.py). LiveKit's voice detection and the speech recognition of
-- src/openvoice/stt/base.py are parameters.
pub mod Transfers
use open_voice.Base.{
  ℕ, Bool, true, false, not, ◌&&◌, ◌||◌, Option, none, some, List, [], ◌∷◌, ◌++◌, map, is_empty,
  is_some, if◌then◌else◌,
}
use mathlib.Core.Option.{get_or}
use open_voice.Base.Text.{Text, codes}
use open_voice.Base.Result.{Error, Result, ok, err}
use open_voice.Reply.{AgentReply}
use open_voice.Conversation.{Providers, State}
use open_voice.Conversation.Loop.{handle_utterance}
use open_voice.Conversation.Stream.{handle_utterance_stream}

-- `TranscriptSegment`
pub record TranscriptSegment : Type 0 where
  pub text : Text
  pub is_final : Bool
  pub language : Option Text

-- the bytes of a frame and its sample rate
pub record Frame : Type 0 where
  pub data_bytes : List ℕ
  pub sample_rate : ℕ

-- An event of the voice detection: whether speech has ended, and the frames.
pub record VadEvent : Type 0 where
  pub end_of_speech : Bool
  pub frames : List Frame

-- `transcribe_stream`: the segments, and the exception that ended the stream, if one did
abbrev pub Transcribe : Type 0
Transcribe = List (List ℕ) → ℕ → List TranscriptSegment × Option Error

-- A `FINAL_TRANSCRIPT` event: its language and its text.
abbrev pub SpeechEvent : Type 0
SpeechEvent = Text × Text

-- `segment.is_final and segment.text`
abbrev pub is_usable : TranscriptSegment → Bool
is_usable s = s.is_final && not (is_empty s.text)

-- `segment.language or "en"`
abbrev pub language_or_english : Option Text → Text
language_or_english none = codes "en"
language_or_english (some []) = codes "en"
language_or_english (some language) = language

-- the loop over the segments
abbrev pub speech_events : List TranscriptSegment → List SpeechEvent
speech_events [] = []
speech_events (s ∷ segments) =
    if is_usable s
    then (language_or_english s.language, s.text) ∷ speech_events segments
    else speech_events segments

-- the utterance of an event, transcribed at the rate of its first frame
abbrev pub transcribe_frames : Transcribe → List Frame → List TranscriptSegment × Option Error
transcribe_frames transcribe [] = ([], none)
transcribe_frames transcribe (f ∷ frames) =
    transcribe (map (λ (g : Frame). g.data_bytes) (f ∷ frames)) f.sample_rate

-- `stt_node`: the events that are yielded, and the exception that ended it, if one did
unfoldable pub stt_node : Transcribe → List VadEvent → List SpeechEvent × Option Error
stt_node transcribe [] = ([], none)
stt_node transcribe (e ∷ events) =
    let (rest, failure) = stt_node transcribe events in
    let (segments, broken) = transcribe_frames transcribe e.frames in
    if not e.end_of_speech || is_empty e.frames then (rest, failure) else elim broken [
      | some error ↦ (speech_events segments, some error)
      | none ↦ (speech_events segments ++ rest, failure)
    ]

-- A message of the chat context: whether it is the user's, and its text.
pub record ChatMessage : Type 0 where
  pub is_user : Bool
  pub text_content : Option Text

-- `user_messages[-1].text_content or ""`, if there is one
abbrev pub last_user_text : List ChatMessage → Option Text
last_user_text [] = none
last_user_text (m ∷ messages) = elim (last_user_text messages) [
  | some text ↦ some text
  | none ↦ if m.is_user then some (get_or m.text_content []) else none
]

-- What `llm_node` yields, the exception that ended it, and whether it has started the transfer.
pub record Spoken : Type 0 where
  pub deltas : List Text
  pub failure : Option Error
  pub transferring : Bool

abbrev pub wants_transfer : Option AgentReply → Bool
wants_transfer none = false
wants_transfer (some reply) = reply.transfer_to_human

module _ {W : Type 0} (p : Providers W) where
  abbrev pub after_reply : Bool → (List Text × Option Error) × State W → Spoken × State W
  after_reply has_callback ((deltas, some e), s) =
      (record { deltas = deltas; failure = some e; transferring = false }, s)
  after_reply has_callback ((deltas, none), s) = (
    record {
      deltas = deltas;
      failure = none;
      transferring = wants_transfer s.conv.last_reply && has_callback;
    },
    s,
  )

  -- `llm_node`; `has_callback` says whether `on_transfer_to_human` is given
  unfoldable pub llm_node : Bool → List ChatMessage → State W → Spoken × State W
  llm_node has_callback messages s = elim (last_user_text messages) [
    | none ↦ (record { deltas = []; failure = none; transferring = false }, s)
    | some caller_text ↦ after_reply has_callback (handle_utterance_stream p caller_text s)
  ]

  -- the last usable segment's text
  abbrev pub last_transcript : Text → List TranscriptSegment → Text
  last_transcript transcript [] = transcript
  last_transcript transcript (s ∷ segments) =
      last_transcript (if is_usable s then s.text else transcript) segments

  abbrev pub reply_to : Text → State W → Result (Option AgentReply) × State W
  reply_to [] s = (ok none, s)
  reply_to (c ∷ transcript) s =
      let (r, s') = handle_utterance p (c ∷ transcript) s in
      elim r [ ok reply ↦ (ok (some reply), s') | err e ↦ (err e, s') ]

  -- `CallPipeline.handle_utterance_audio`, up to the audio: what is synthesized is the reply's text
  unfoldable pub handle_utterance_audio :
      Transcribe → List (List ℕ) → ℕ → State W → Result (Option AgentReply) × State W
  handle_utterance_audio transcribe audio_frames sample_rate s =
      let (segments, broken) = transcribe audio_frames sample_rate in
      elim broken [ some e ↦ (err e, s) | none ↦ reply_to (last_transcript [] segments) s ]
