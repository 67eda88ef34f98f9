-- ===== src/Config/Startup.antt =====
-- What the validation of the settings (src/openvoice/config.py) guarantees to the factories.
use open_voice.Base.{
  ◌≡◌, refl, ap, subst, ap₂, ◌&&◌, Bool, true, false, Option, none, some, ltb, length,
  if◌then◌else◌,
}
use open_voice.Base.Result.{Error, Result, ok, err, then_ok}
use open_voice.Base.Text.{Text}
use open_voice.Config.{
  Settings, LlmProvider, TtsProvider, is_set, has_llm_credentials, has_tts_credentials, validate,
}
use open_voice.Config.Factories.{
  LlmConfig, TtsConfig, Packages, anthropic_provider, openai_provider, openai_compatible_provider,
  llm_provider_for, get_llm_provider, get_tts_provider, elevenlabs_provider, elevenlabs_voice,
  piper_from_settings, tts_provider_for,
}

last_check :
    (b : Bool) (s t : Settings)
    → (if b then ok s else err Error.value_error) ≡ ok t
    → (b ≡ true) × (s ≡ t)
last_check true s t h = (refl, cc)
last_check false s t h = cc

checks :
    (short credentials : Bool) (tts : Settings → Bool) (s t : Settings)
    → (if short
        then err Error.value_error
        else then_ok
            (if credentials then ok s else err Error.value_error)
            λ x. if tts x then ok x else err Error.value_error)
      ≡ ok t
    → (credentials ≡ true) × (tts s ≡ true) × (s ≡ t)
checks true credentials tts s t h = cc
checks false false tts s t h = cc
checks false true tts s t h = let (passed, same) = last_check (tts s) s t h in (refl, passed, same)

-- Settings that pass the validation are unchanged, and have what it asks for.
validated :
    (s t : Settings)
    → validate s ≡ ok t
    → (has_llm_credentials s.llm_provider s ≡ true)
      × (has_tts_credentials s.tts_provider s ≡ true)
      × (s ≡ t)
unfolding validate
validated s t h =
    checks (ltb (length s.secret_key) 16) (has_llm_credentials s.llm_provider s)
      (λ x. has_tts_credentials x.tts_provider x) s t h

set_some : (o : Option Text) → is_set o ≡ true → (t : Text) × (o ≡ some t)
set_some none h = cc
set_some (some t) h = (t, refl)

and_both : (a b : Bool) → (a && b) ≡ true → (a ≡ true) × (b ≡ true)
and_both true b h = (refl, h)
and_both false b h = cc

llm_for :
    (p : LlmProvider) (s : Settings)
    → has_llm_credentials p s ≡ true
    → (c : LlmConfig) × (llm_provider_for p s ≡ ok c)
llm_for LlmProvider.anthropic s h =
    let (key, is) = set_some s.anthropic_api_key h in (_, ap (anthropic_provider s) is)
llm_for LlmProvider.openai s h =
    let (key, is) = set_some s.openai_api_key h in (_, ap (openai_provider s) is)
llm_for LlmProvider.openai_compatible s h =
    let (url_set, model_set) =
      and_both (is_set s.openai_compatible_base_url) (is_set s.openai_compatible_model) h in
    let (url, is_url) = set_some s.openai_compatible_base_url url_set in
    let (model, is_model) = set_some s.openai_compatible_model model_set in
    (_, ap₂ (openai_compatible_provider s) is_url is_model)

-- What the factory of the voices does with settings that name this provider.
abbrev pub VoiceIs : Packages → Settings → TtsProvider → Result TtsConfig → Type 0
VoiceIs packages s TtsProvider.piper r = r ≡ piper_from_settings packages s
VoiceIs packages s TtsProvider.elevenlabs r =
    (key : Text) × (r ≡ ok (elevenlabs_voice key s.elevenlabs_voice_id s.elevenlabs_model))
VoiceIs packages s TtsProvider.coqui r = r ≡ err Error.not_implemented_error

voice_for :
    (packages : Packages) (p : TtsProvider) (s : Settings)
    → has_tts_credentials p s ≡ true
    → VoiceIs packages s p (tts_provider_for packages p s)
voice_for packages TtsProvider.piper s h = refl
voice_for packages TtsProvider.coqui s h = refl
voice_for packages TtsProvider.elevenlabs s h =
    let (key, is) = set_some s.elevenlabs_api_key h in (key, ap (elevenlabs_provider s) is)

-- Settings that the validation accepts are the ones that were read, and never make the factories miss a
-- credential: the selected language model is built, and so is an ElevenLabs voice; Piper's depends
-- on the package and the model's file alone, and Coqui is refused as not implemented.
pub validate-factories :
    (packages : Packages) (s t : Settings)
    → validate s ≡ ok t
    → (s ≡ t)
      × ((c : LlmConfig) × (get_llm_provider t ≡ ok c))
      × VoiceIs packages t t.tts_provider (get_tts_provider packages t)
unfolding get_llm_provider get_tts_provider
validate-factories packages s t h =
    let (llm, tts, same) = validated s t h in
    subst
      (λ x.
        (s ≡ x)
        × ((c : LlmConfig) × (llm_provider_for x.llm_provider x ≡ ok c))
        × VoiceIs packages x x.tts_provider (tts_provider_for packages x.tts_provider x))
      same (refl, llm_for s.llm_provider s llm, voice_for packages s.tts_provider s tts)
