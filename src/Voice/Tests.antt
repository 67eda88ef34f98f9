-- ===== src/Voice/Tests.antt =====
-- Instances of the theorems about what is heard and what is played.
use open_voice.Base.{
  if◌then◌else◌, ◌==◌, none, ℕ, ◌+◌, ◌*◌, ◌/◌, ◌%◌, true, false, some, List, [], ◌∷◌, length,
}
use open_voice.Base.Text.{codes}
use open_voice.Base.Result.{Error, Result, ok, err, then_ok}
use open_voice.Telephony.Agent.{VadEvent}
use open_voice.Voice.{Numpy, Whisper}
use open_voice.Notifications.{Http, response}
use open_voice.Notifications.Sample.{sample_http, sample_http-IsRetryer}
use open_voice.Telephony.Speech.{synthesize_to_frames}
use open_voice.Voice.Elevenlabs.{
  ElevenlabsVoice, speech_request, synthesize_speech, Plays, synthesize_speech-Plays,
}

abbrev read : List ℕ → Result (List ℕ)
read [] = ok []
read (b ∷ []) = err Error.value_error
read (b ∷ c ∷ pcm) = then_ok (read pcm) λ samples. ok ((b + 256 * c) ∷ samples)

abbrev write : List ℕ → List ℕ
write [] = []
write (x ∷ samples) = (x % 256) ∷ (x / 256) ∷ write samples

abbrev np : Numpy ℕ
np = record {
  frombuffer = read;
  size = length;
  interp = λ count samples. samples;
  tobytes = write;
  round_ratio = λ a b. a;
}

abbrev whisper : Whisper np
whisper = record {
  transcribe = λ audio language. ok (codes " Hello" ∷ codes " there. " ∷ []);
  language = some (codes "fr");
  print_error = λ e. codes "unreachable";
}

-- a start of speech, an utterance at 48 kHz and one at the model's rate
abbrev events : List VadEvent
events =
    record { end_of_speech = false; frames = [] }
    ∷ record {
      end_of_speech = true;
      frames = record { data_bytes = 1 ∷ 2 ∷ []; sample_rate = 48000 } ∷ [];
    }
    ∷ record {
      end_of_speech = true;
      frames = record { data_bytes = 3 ∷ 4 ∷ 5 ∷ 6 ∷ []; sample_rate = 16000 } ∷ [];
    }
    ∷ []

-- a busy server, and then five bytes
abbrev http : Http
http = record sample_http {
  post =
      λ sent k request. if k == 0 then response 503 [] else response 200 (1 ∷ 2 ∷ 3 ∷ 4 ∷ 5 ∷ []);
}

abbrev rachel : ElevenlabsVoice
rachel = record { voice_id = codes "rachel"; model_id = codes "turbo"; max_retries = 3 }

synthesize_speech-Plays_example :
    Plays http sample_http-IsRetryer
      (speech_request http rachel (codes "rachel") (codes "Hello.") 16000)
      []
      3
      (
        synthesize_to_frames (synthesize_speech http rachel [] (codes "Hello.") none 16000).0,
        (synthesize_speech http rachel [] (codes "Hello.") none 16000).1,
      )
synthesize_speech-Plays_example =
    synthesize_speech-Plays http sample_http-IsRetryer rachel [] (codes "Hello.") none 16000
