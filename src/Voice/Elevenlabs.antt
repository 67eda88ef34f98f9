-- ===== src/Voice/Elevenlabs.antt =====
-- src/openvoice/tts/providers/elevenlabs.py, with httpx and tenacity as in the senders of messages, and the
-- frames that src/openvoice/telephony/livekit_agent.py plays of it.
use open_voice.Base.{ℕ, ◌≡◌, Option, none, some, List, [], ◌∷◌, ◌++◌, All}
use open_voice.Base.Text.{Text, codes}
use open_voice.Base.Json.{Json, Fields}
use open_voice.Base.Result.{Error}
use open_voice.Booking.Service.{Message}
use open_voice.Notifications.{
  Http, Request, query, raised, Attempt, posted, retryable_status, transport_failed, http_failed,
  escaped, attempt,
}
use open_voice.Notifications.Attempts.{
  IsRetryer, AcceptedWith, Reached, FailsLast, Ends, retry-Ends,
}
use open_voice.Telephony.Speech.{AudioFrame, synthesize_to_frames}
use open_voice.Telephony.Speech.Frames.{
  IsPcm16, samples, whole_samples, synthesize_to_frames-IsPcm16,
}

-- `ElevenLabsTTSProvider`, without its client
pub record ElevenlabsVoice : Type 0 where
  pub voice_id : Text
  pub model_id : Text
  pub max_retries : ℕ

-- `voice or self._voice_id`
abbrev pub voice_or_default : Option Text → Text → Text
voice_or_default none default = default
voice_or_default (some []) default = default
voice_or_default (some voice) default = voice

module _ (http : Http) where
  -- the arguments of `client.post` in `_post`
  abbrev pub speech_request : ElevenlabsVoice → Text → Text → ℕ → Request
  speech_request v voice_id text sample_rate =
      query (codes "https://api.elevenlabs.io/v1/text-to-speech/" ++ voice_id)
        ((codes "output_format", codes "pcm_" ++ http.print_code sample_rate) ∷ [])
        (Json.object (
          Fields.field (codes "text") (Json.string text)
            (Fields.field (codes "model_id") (Json.string v.model_id) Fields.end)))

  abbrev pub synthesis_failed : Text → List (List ℕ) × Option Error
  synthesis_failed why = ([], some (Error.tts_error (codes "ElevenLabs synthesis failed: " ++ why)))

  -- what is yielded of the response, or raised instead
  abbrev pub yielded : Attempt → List (List ℕ) × Option Error
  yielded (posted code content) = (content ∷ [], none)
  yielded (retryable_status code) =
      synthesis_failed (codes "Retryable status " ++ http.print_code code)
  yielded (transport_failed why) = synthesis_failed why
  yielded (http_failed why) = synthesis_failed why
  yielded (escaped e) = ([], some e)

  -- `synthesize`, after the messages that the client has sent
  unfoldable pub synthesize_speech :
      ElevenlabsVoice → List Message → Text → Option Text → ℕ → List (List ℕ) × Option Error
  synthesize_speech v sent text voice sample_rate = yielded (
      http.retry v.max_retries
        (attempt http (speech_request v (voice_or_default voice v.voice_id) text sample_rate) sent))

module _ (http : Http) (retries : IsRetryer http) (request : Request) (sent : List Message)
    (max : ℕ) where
  -- How a sentence may come out: its frames, and the exception.
  pub data Plays : List AudioFrame × Option Error → Type 0 where
    -- the frames hold the content of an accepted answer, less an odd byte at its end
    played :
        {frames : List AudioFrame} (k code : ℕ) (content : List ℕ)
        → Reached http retries request sent max k
        → AcceptedWith http retries request sent max k code content
        → All IsPcm16 frames
        → samples frames ≡ whole_samples (content ∷ [])
        → Plays (frames, none)
    -- the failure of attempt `k`, which is final or the last one that is allowed
    silenced :
        (k : ℕ) (why : Text)
        → FailsLast http retries request sent max k why
        → Plays ([], some (Error.tts_error (codes "ElevenLabs synthesis failed: " ++ why)))
    -- an exception that is no `HTTPError`
    passed :
        (k : ℕ) (e : Error)
        → Reached http retries request sent max k
        → http.post sent k request ≡ raised e
        → Plays ([], some e)

  abbrev pub frames_and_error : List (List ℕ) × Option Error → List AudioFrame × Option Error
  frames_and_error r = (synthesize_to_frames r.0, r.1)

  Ends-Plays :
      (a : Attempt)
      → Ends http retries request sent max a
      → Plays (frames_and_error (yielded http a))
  unfolding synthesize_to_frames
  Ends-Plays (posted code content) (k, at, x) =
      let (whole, same) = synthesize_to_frames-IsPcm16 (content ∷ []) in
      played k code content at x whole same
  Ends-Plays (retryable_status code) (k, x) = silenced k _ x
  Ends-Plays (transport_failed why) (k, x) = silenced k why x
  Ends-Plays (http_failed why) (k, x) = silenced k why x
  Ends-Plays (escaped e) (k, at, x) = passed k e at x

-- What is played of a sentence with ElevenLabs and a retryer of tenacity's kind: either every frame holds whole
-- samples and the frames hold the content of an answer that was accepted within the allowed number of
-- attempts, less an odd byte at its end; or there is no frame, and a TTSError with the failure of an attempt
-- that failed for good or was the last one allowed, or else what the HTTP client raised that is no HTTPError;
-- every attempt before failed in a way that is retried.
pub synthesize_speech-Plays :
    (http : Http) (retries : IsRetryer http) (v : ElevenlabsVoice) (sent : List Message)
    (text : Text) (voice : Option Text) (sample_rate : ℕ)
    → Plays http retries
        (speech_request http v (voice_or_default voice v.voice_id) text sample_rate)
        sent
        v.max_retries
        (
          synthesize_to_frames (synthesize_speech http v sent text voice sample_rate).0,
          (synthesize_speech http v sent text voice sample_rate).1,
        )
unfolding synthesize_speech
synthesize_speech-Plays http retries v sent text voice sample_rate =
    let request = speech_request http v (voice_or_default voice v.voice_id) text sample_rate in
    Ends-Plays http retries request sent v.max_retries _
      (retry-Ends http retries request sent v.max_retries)
