-- ===== src/Services/Prompts.antt =====
-- src/openvoice/agent/prompts.py. The zones and the formats of `datetime` are a library, and parameters here.
use open_voice.Base.{ℕ, Option, none, some, ◌++◌}
use open_voice.Base.Text.{Text, codes}
use open_voice.Base.Result.{Error, Result, ok, err, then_ok}
use open_voice.Config.{Settings}

-- The texts around `{company_name}` of `_DEFAULT_SYSTEM_PROMPT_TEMPLATE`.
abbrev pub template_before : Text
template_before = codes "You are a professional, friendly phone agent for "

abbrev pub template_after : Text
template_after =
    codes
      ".\n\nYour job on every call:\n- Understand what the caller needs (booking an appointment, a support question, or an urgent issue) and help them directly when you can.\n- Keep responses short and natural — this is a spoken conversation, not a chat window. One or two sentences per turn unless the caller asks for detail.\n- Always reply in the same language the caller is speaking, even if these instructions are in English. Switch languages immediately if the caller switches.\n- If you cannot resolve the caller's request, or they explicitly ask for a human, say so plainly and let the call be transferred.\n- Never invent information (appointment slots, policies, prices) you don't actually have access to.\n"

-- `build_system_prompt`
abbrev pub prompt_or_default : Option Text → Text → Text
prompt_or_default none company_name = template_before ++ (company_name ++ template_after)
prompt_or_default (some prompt) company_name = prompt

unfoldable pub build_system_prompt : Settings → Text
build_system_prompt settings =
    prompt_or_default settings.agent_system_prompt settings.agent_company_name

-- What `ZoneInfo(key)` does; a key that is no relative path is a `ValueError`.
pub data ZoneLookup (Z : Type 0) : Type 0 where
  zone : Z → ZoneLookup Z
  zone_not_found : ZoneLookup Z
  zone_error : Error → ZoneLookup Z

-- The time zones, and the three formats of an instant in a zone.
pub record Zones (Z : Type 0) : Type 0 where
  pub zone_info : Text → ZoneLookup Z
  -- `strftime('%A, %B %d, %Y, %H:%M')`, `tzname()` and `strftime('%z')`
  pub long_format : Z → ℕ → Text
  pub tzname : Z → ℕ → Text
  pub offset : Z → ℕ → Text

module _ {Z : Type 0} (zones : Zones Z) where
  abbrev pub utc_or_raise : ZoneLookup Z → Result Z
  utc_or_raise (zone z) = ok z
  utc_or_raise zone_not_found = err (Error.other (codes "ZoneInfoNotFoundError"))
  utc_or_raise (zone_error e) = err e

  -- `try: ZoneInfo(timezone) except ZoneInfoNotFoundError: ZoneInfo("UTC")`
  abbrev pub zone_or_utc : ZoneLookup Z → Result Z
  zone_or_utc (zone z) = ok z
  zone_or_utc zone_not_found = utc_or_raise (zones.zone_info (codes "UTC"))
  zone_or_utc (zone_error e) = err e

  abbrev pub context_in : ℕ → Z → Text
  context_in now z =
      codes "\nCurrent date and time: "
      ++ (zones.long_format z now
          ++ (codes " ("
              ++ (zones.tzname z now
                  ++ (codes ", UTC offset "
                      ++ (zones.offset z now
                          ++ codes
                              "). Use this to resolve relative dates and times the caller mentions (e.g. \"tomorrow afternoon\", \"next Monday\"), and always include this UTC offset in any datetime you pass to a tool.\n")))))

  -- `build_temporal_context` at the instant `now`
  unfoldable pub build_temporal_context : Text → ℕ → Result Text
  build_temporal_context timezone now =
      then_ok (zone_or_utc (zones.zone_info timezone)) λ z. ok (context_in now z)
