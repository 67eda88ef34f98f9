-- ===== src/Api/Health.antt =====
-- src/openvoice/api/routers/health.py. The probes of the database, of Redis and of LiveKit's port, and the parser of
-- urls, are parameters.
use open_voice.Base.{
  ℕ, zero, ◌≡◌, ◌≢◌, ◌↔◌, refl, Bool, true, false, Option, none, some, List, [], ◌∷◌, ◌++◌, all,
  keep, if◌then◌else◌,
}
use open_voice.Base.Text.{Text, codes}
use open_voice.Base.Result.{Error, Result, ok, err, then_ok}

pub record HealthDependency : Type 0 where
  pub name : Text
  pub healthy : Bool
  pub required : Bool
  pub detail : Option Text

pub data HealthStatus : Type 0 where
  healthy degraded : HealthStatus

pub record HealthResponse : Type 0 where
  pub status : HealthStatus
  pub dependencies : List HealthDependency

-- What is read of a url: the attribute `port` of the result raises a `ValueError` for a port that is no number or
-- out of range.
pub record Url : Type 0 where
  pub hostname : Option Text
  pub port : Result (Option ℕ)
  pub is_https : Bool

pub record Probes : Type 0 where
  pub select_one : Result (Unit {0})
  -- `redis.from_url`, which raises a `ValueError` for a url of another scheme, and the ping
  pub redis_client : Result (Unit {0})
  pub ping : Result (Unit {0})
  -- the environment's `LIVEKIT_URL`, and the url parsed after the change of scheme
  pub livekit_url : Option Text
  pub parse_url : Text → Result Url
  pub open_connection : Text → ℕ → Result (Unit {0})
  -- `str(exc)`
  pub print_error : Error → Text

-- `parsed.port or (443 if parsed.scheme == "https" else 80)`
abbrev pub port_or_default : Option ℕ → Bool → ℕ
port_or_default none is_https = if is_https then 443 else 80
port_or_default (some zero) is_https = if is_https then 443 else 80
port_or_default (some port) is_https = port

not_ok : (e : Error) → err e ≢ ok (tt {0})
not_ok e h = cc

module _ (p : Probes) where
  abbrev pub checked : Text → Bool → Result (Unit {0}) → HealthDependency
  checked name required (ok _) = record {
    name = name;
    healthy = true;
    required = required;
    detail = none;
  }
  checked name required (err e) = record {
    name = name;
    healthy = false;
    required = required;
    detail = some (p.print_error e);
  }

  -- `_check_database`
  abbrev pub check_database : HealthDependency
  check_database = checked (codes "database") true p.select_one

  -- `_check_redis`: the client is made outside the `try`
  abbrev pub check_redis : Result HealthDependency
  check_redis = then_ok p.redis_client λ _. ok (checked (codes "redis") true p.ping)

  abbrev pub check_host : Text → Option Text → ℕ → HealthDependency
  check_host url none port = record {
    name = codes "livekit";
    healthy = false;
    required = false;
    detail = some (codes "unparseable LIVEKIT_URL: " ++ url);
  }
  check_host url (some host) port = checked (codes "livekit") false (p.open_connection host port)

  abbrev pub check_parsed : Text → Url → Result HealthDependency
  check_parsed url parsed =
      then_ok parsed.port
        λ port. ok (check_host url parsed.hostname (port_or_default port parsed.is_https))

  abbrev pub not_configured : HealthDependency
  not_configured = record {
    name = codes "livekit";
    healthy = true;
    required = false;
    detail = some (codes "not configured");
  }

  -- `_check_livekit`, by the environment's `LIVEKIT_URL`
  unfoldable pub check_livekit : Option Text → Result HealthDependency
  check_livekit none = ok not_configured
  check_livekit (some []) = ok not_configured
  check_livekit (some url) = then_ok (p.parse_url url) (check_parsed url)

  -- `all(d.healthy for d in dependencies if d.required)`
  abbrev pub overall : List HealthDependency → HealthStatus
  overall dependencies =
      if all (λ d. d.healthy) (keep (λ d. d.required) dependencies)
      then HealthStatus.healthy
      else HealthStatus.degraded

  abbrev pub health_of : HealthDependency → HealthDependency → HealthResponse
  health_of redis livekit =
      let dependencies = check_database ∷ redis ∷ livekit ∷ [] in
      record { status = overall dependencies; dependencies = dependencies }

  -- `health`
  unfoldable pub health : Result HealthResponse
  health =
      then_ok check_redis
        λ redis. then_ok (check_livekit p.livekit_url) λ livekit. ok (health_of redis livekit)

  checked-optional : (r : Result (Unit {0})) → (checked (codes "livekit") false r).required ≡ false
  checked-optional (ok _) = refl
  checked-optional (err e) = refl

  host-optional :
      (url : Text) (host : Option Text) (port : ℕ) → (check_host url host port).required ≡ false
  host-optional url none port = refl
  host-optional url (some host) port = checked-optional (p.open_connection host port)

  -- LiveKit's check is never a required one.
  abbrev Informational : Result HealthDependency → Type 0
  Informational (ok d) = d.required ≡ false
  Informational (err e) = Unit

  parsed-Informational :
      (url : Text) (parsed : Url) (port : Result (Option ℕ))
      → Informational (
          then_ok port λ n. ok (check_host url parsed.hostname (port_or_default n parsed.is_https)))
  parsed-Informational url parsed (ok port) =
      host-optional url parsed.hostname (port_or_default port parsed.is_https)
  parsed-Informational url parsed (err e) = tt

  url-Informational : (url : Text) (r : Result Url) → Informational (then_ok r (check_parsed url))
  url-Informational url (ok parsed) = parsed-Informational url parsed parsed.port
  url-Informational url (err e) = tt

  livekit-Informational : (url : Option Text) → Informational (check_livekit url)
  unfolding check_livekit
  livekit-Informational none = refl
  livekit-Informational (some []) = refl
  livekit-Informational (some (x ∷ xs)) = url-Informational (x ∷ xs) (p.parse_url (x ∷ xs))

  -- What `health` comes to.
  abbrev pub Reports : Result (Unit {0}) → Result HealthDependency → Result HealthResponse → Type 0
  Reports (err e) livekit r = r ≡ err e
  Reports (ok _) (err e) r = r ≡ err e
  Reports (ok _) (ok livekit) r =
      (h : HealthResponse) × (r ≡ ok h)
      × ((h.status ≡ HealthStatus.healthy) ↔ ((p.select_one ≡ ok tt) × (p.ping ≡ ok tt)))

  status_lem :
      (database redis : Result (Unit {0})) (livekit : HealthDependency)
      → livekit.required ≡ false
      → (overall (
            checked (codes "database") true database
            ∷ checked (codes "redis") true redis
            ∷ livekit
            ∷ [])
          ≡ HealthStatus.healthy)
        ↔ ((database ≡ ok tt) × (redis ≡ ok tt))
  status_lem (ok _) (ok _) livekit l = (λ h. (refl, refl), λ h. rw l refl)
  status_lem (err e) redis livekit l = (λ h. cc, λ h. absurd (not_ok e h.0))
  status_lem (ok _) (err e) livekit l = (λ h. cc, λ h. absurd (not_ok e h.1))

  reports_lem :
      (client : Result (Unit {0})) (livekit : Result HealthDependency)
      → Informational livekit
      → Reports client livekit (
          then_ok
            (then_ok client λ _. ok (checked (codes "redis") true p.ping))
            λ redis. then_ok livekit λ d. ok (health_of redis d))
  reports_lem (err e) livekit l = refl
  reports_lem (ok _) (err e) l = refl
  reports_lem (ok _) (ok d) l =
      (health_of (checked (codes "redis") true p.ping) d, refl, status_lem p.select_one p.ping d l)

  -- `health` reports the service as healthy just where the database and Redis both answer, whatever the check of LiveKit
  -- finds; but where making the client of Redis raises, for a `REDIS_URL` that it cannot take, or the check of LiveKit
  -- itself does, for a `LIVEKIT_URL` that cannot be parsed, so does the endpoint.
  pub health-Reports : Reports p.redis_client (check_livekit p.livekit_url) health
  unfolding health
  health-Reports =
      reports_lem p.redis_client (check_livekit p.livekit_url) (livekit-Informational p.livekit_url)
