-- ===== src/Services/Ready.antt =====
-- When the agent of a call (src/openvoice/telephony/worker.py) starts: with the conversation, the recognition and the voice.
use open_voice.Base.{◌≡◌, true}
use open_voice.Base.Text.{Text}
use open_voice.Base.Result.{Result, ok}
use open_voice.Config.{Settings, SttProvider, TtsProvider}
use open_voice.Config.Factories.{Packages}
use open_voice.Services.Entrypoint.{Started}

abbrev pub IsBuilt : {A : Type 0} → Result A → Type 0
IsBuilt {A} r = (x : A) × (r ≡ ok x)

module _ (packages : Packages) (settings : Settings) where
  -- The recogniser can be built: faster-whisper with its package, whose model loads. Deepgram is not implemented.
  abbrev pub HasEars : SttProvider → Type 0
  HasEars SttProvider.faster_whisper =
      (packages.faster_whisper ≡ true)
      × (packages.whisper_model settings.faster_whisper_model_size settings.faster_whisper_device
            settings.faster_whisper_compute_type
          ≡ ok tt)
  HasEars SttProvider.deepgram = ⊥

  -- The voice can be built: Piper with its package, whose model loads, or ElevenLabs. Coqui is not implemented.
  abbrev pub HasVoice : TtsProvider → Type 0
  HasVoice TtsProvider.piper =
      (packages.piper ≡ true) × (packages.piper_load settings.piper_voice_model_path ≡ ok tt)
  HasVoice TtsProvider.elevenlabs = Unit
  HasVoice TtsProvider.coqui = ⊥
