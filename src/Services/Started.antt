-- ===== src/Services/Started.antt =====
-- The conversation of a call of src/openvoice/telephony/worker.py is set up, with the booking tools or without them.
use open_voice.Base.{
  ℕ, ◌≡◌, refl, sym, ap, subst, ◌∙◌, Option, none, some, ◌++◌, Bool, true, false, is_some, not,
  if◌then◌else◌, ◌&&◌,
}
use open_voice.Base.Text.{Text}
use open_voice.Base.Result.{Error, Result, ok, err}
use open_voice.Config.{Settings, is_set, validate}
use open_voice.Config.Factories.{
  Packages, LlmConfig, GoogleConfig, google_from_settings, twilio_of, resend_of,
  get_calendar_provider, get_sms_provider, get_email_provider, get_llm_provider,
}
use open_voice.Config.Startup.{validate-factories}
use open_voice.Conversation.{Conversation, Arguments, offered, new_conversation}
use mathlib.Core.Bool.{xor}
use open_voice.Booking.Service.{Service}
use open_voice.Tools.{Libraries}
use open_voice.Tools.Definitions.{booking_tool_definitions}
use open_voice.Services.{
  Clients, BookingTools, optional_provider, service_of, service_with, bound, tools_with,
  build_booking_tools, tools_for,
}
use open_voice.Services.Prompts.{Zones, build_system_prompt, build_temporal_context}
use open_voice.Services.Entrypoint.{
  Started, conversation_arguments, conversation_with, start_conversation,
}

-- The settings and the packages that Google's calendar needs.
abbrev pub has_calendar : Packages → Settings → Bool
has_calendar packages settings =
    is_some settings.google_service_account_json_path && packages.google

-- It is there or it is not: nothing else is raised.
abbrev Optional : {A : Type 0} → Result A → Type 0
Optional {A} r = (t : Option A) × (optional_provider r ≡ ok t)

unless_missing :
    {A : Type 0} (missing : Bool) (r : Result A)
    → Optional r
    → Optional (if missing then err Error.runtime_error else r)
unless_missing true r h = (none, refl)
unless_missing false r h = h

twilio-Optional :
    (settings : Settings) (sid token number : Option Text)
    → Optional (twilio_of settings sid token number)
twilio-Optional settings (some sid) (some token) (some number) = (_, refl)
twilio-Optional settings (some sid) (some token) none = (none, refl)
twilio-Optional settings (some sid) none number = (none, refl)
twilio-Optional settings none token number = (none, refl)

resend-Optional :
    (settings : Settings) (key email : Option Text) → Optional (resend_of settings key email)
resend-Optional settings (some key) (some email) = (_, refl)
resend-Optional settings (some key) none = (none, refl)
resend-Optional settings none email = (none, refl)

sms-Optional : (settings : Settings) → Optional (get_sms_provider settings)
unfolding get_sms_provider
sms-Optional settings =
    unless_missing (not (is_set settings.twilio_account_sid && is_set settings.twilio_auth_token)) _
      (unless_missing (not (is_set settings.twilio_from_number)) _ (
        twilio-Optional settings settings.twilio_account_sid settings.twilio_auth_token
          settings.twilio_from_number))

email-Optional : (settings : Settings) → Optional (get_email_provider settings)
unfolding get_email_provider
email-Optional settings =
    unless_missing (not (is_set settings.resend_api_key && is_set settings.resend_from_email)) _
      (resend-Optional settings settings.resend_api_key settings.resend_from_email)

unless_inconsistent :
    (b : Bool) (c : Conversation) → b ≡ false → (if b then err Error.value_error else ok c) ≡ ok c
unless_inconsistent true c h = cc
unless_inconsistent false c h = refl

accepted :
    (a : Arguments) (now : ℕ)
    → xor (is_some (offered a.tools)) a.has_executor ≡ false
    → (c : Conversation) × (new_conversation a now ≡ ok c) × (c.tools ≡ offered a.tools)
unfolding new_conversation
accepted a now h =
    (_, unless_inconsistent (xor (is_some (offered a.tools)) a.has_executor) _ h, refl)

module _ (packages : Packages) (libraries : Libraries) (clients : Clients)
    (settings : Settings) where
  service_made :
      (google : GoogleConfig) → (s : Service) × (service_with clients settings google ≡ ok s)
  service_made google =
      let (t, is_t) = sms-Optional settings in
      let (r, is_r) = email-Optional settings in
      (service_of clients settings google t r, rw (is_t, is_r) refl)

  -- What a call gets for tools: all of them or none.
  abbrev AllOrNone : Option BookingTools → Type 0
  AllOrNone none = Unit
  AllOrNone (some t) = t.definitions ≡ booking_tool_definitions

  abbrev Equips : Bool → Result (Option BookingTools) → Type 0
  Equips available r =
      (t : Option BookingTools) × (r ≡ ok t) × (is_some t ≡ available) × AllOrNone t

  made_with :
      (client_id call_id : ℕ) (google : GoogleConfig)
      → Equips true (tools_with libraries clients settings client_id call_id (ok google))
  made_with client_id call_id google =
      let (s, is) = service_made google in
      (some (bound libraries client_id call_id s), rw is refl, refl, refl)

  -- A package that is installed reads the account of the settings.
  abbrev pub ReadsAccount : Option Text → Type 0
  ReadsAccount account = (path : Text) → account ≡ some path → packages.google_client path ≡ ok tt

  abbrev google_config : Text → GoogleConfig
  google_config path = record {
    calendar_id = settings.google_calendar_id;
    service_account_json_path = path;
  }

  built :
      (path : Text)
      → ReadsAccount (some path)
      → packages.google ≡ true
      → google_from_settings packages settings (some path) ≡ ok (google_config path)
  built path reads h = rw (h, reads path refl) refl

  installed_or_not :
      (client_id call_id : ℕ) (path : Text) (installed : Bool)
      → ReadsAccount (some path)
      → packages.google ≡ installed
      → Equips installed (
          tools_with libraries clients settings client_id call_id
            (google_from_settings packages settings (some path)))
  installed_or_not client_id call_id path true reads h =
      subst (λ r. Equips true (tools_with libraries clients settings client_id call_id r))
        (sym (built path reads h)) (made_with client_id call_id (google_config path))
  installed_or_not client_id call_id path false reads h = (none, rw h refl, refl, tt)

  calendar_or_not :
      (client_id call_id : ℕ) (path : Option Text)
      → ReadsAccount path
      → Equips (is_some path && packages.google) (
          tools_with libraries clients settings client_id call_id
            (google_from_settings packages settings path))
  calendar_or_not client_id call_id none reads = (none, refl, refl, tt)
  calendar_or_not client_id call_id (some path) reads =
      installed_or_not client_id call_id path packages.google reads refl

  tools_equip :
      (client_id : Option ℕ) (call_id : ℕ)
      → ReadsAccount settings.google_service_account_json_path
      → Equips
          (is_some client_id && has_calendar packages settings)
          (tools_for packages libraries clients settings client_id call_id)
  unfolding tools_for build_booking_tools get_calendar_provider
  tools_equip none call_id reads = (none, refl, refl, tt)
  tools_equip (some client_id) call_id reads =
      calendar_or_not client_id call_id settings.google_service_account_json_path reads

  offers :
      (prompt : Text) (tools : Option BookingTools)
      → AllOrNone tools
      → is_some (offered (conversation_arguments settings prompt tools).tools) ≡ is_some tools
  offers prompt none all = refl
  offers prompt (some t) all = rw all refl

  consistent :
      (prompt : Text) (tools : Option BookingTools)
      → AllOrNone tools
      → xor (is_some (offered (conversation_arguments settings prompt tools).tools)) (is_some tools)
        ≡ false
  unfolding xor
  consistent prompt none all = refl
  consistent prompt (some t) all = rw all refl

  -- The conversation's constructor takes what it is given.
  constructed :
      (llm : LlmConfig) (now : ℕ) (prompt : Text) (tools : Option BookingTools)
      → get_llm_provider settings ≡ ok llm
      → AllOrNone tools
      → (s : Started) × (conversation_with settings now prompt tools ≡ ok s)
        × (s.tools ≡ tools)
        × (is_some s.conversation.tools ≡ is_some tools)
  constructed llm now prompt tools is all =
      let a = conversation_arguments settings prompt tools in
      let (c, made, has) = accepted a now (consistent prompt tools all) in
      (
        record { llm = llm; tools = tools; conversation = c },
        rw (is, made) refl,
        refl,
        ap is_some has ∙ offers prompt tools all,
      )

  -- The conversation of a call is set up with every settings that the validation accepted, if the time zone's lookup gives
  -- the temporal context and an installed package of Google's reads the file of the account. It has the booking tools
  -- just where the caller is a known client, the path of Google's account is set and its package installed, and then the
  -- conversation offers them to the model.
  pub start_conversation-starts :
      {Z : Type 0} (zones : Zones Z) (raw : Settings) (context : Text) (client_id : Option ℕ)
      (call_id now : ℕ)
      → validate raw ≡ ok settings
      → ReadsAccount settings.google_service_account_json_path
      → build_temporal_context zones settings.booking_timezone now ≡ ok context
      → (s : Started) × (start_conversation packages libraries clients zones settings client_id
            call_id now
          ≡ ok s)
        × (is_some s.tools ≡ (is_some client_id && has_calendar packages settings))
        × (is_some s.conversation.tools ≡ is_some s.tools)
  unfolding start_conversation
  start_conversation-starts zones raw context client_id call_id now valid reads in_context =
      let (same, (llm, is_llm), voice) = validate-factories packages raw settings valid in
      let (tools, is_tools, available, all) = tools_equip client_id call_id reads in
      let (s, is, has, same_tools) =
        constructed llm now (build_system_prompt settings ++ context) tools is_llm all in
      (
        s,
        rw (in_context, is_tools, is) refl,
        ap is_some has ∙ available,
        same_tools ∙ sym (ap is_some has),
      )
