-- ===== src/Api/Health.antt =====
-- `check` of src/piki/api/health.py and the routes of src/piki/api/app.py. Whether a ping
-- returns in time is an argument.
use buenpick_piki.Base.{ℕ, String, Bool, true, false, ◌&&◌, List, [], ◌∷◌}

pub data HealthStatus : Type 0 where
  ok degraded : HealthStatus

pub record ProbeResult : Type 0 where
  pub status : HealthStatus
  pub detail : String

pub record HealthReport : Type 0 where
  pub status : HealthStatus
  pub service : String
  pub version : String
  pub checks : List (String × ProbeResult)

-- `_probe(name, operation)`
abbrev pub probe : String → Bool → String × ProbeResult
probe name true = (name, record { status = ok; detail = "reachable" })
probe name false = (name, record { status = degraded; detail = "unreachable" })

abbrev is_ok : HealthStatus → Bool
is_ok ok = true
is_ok degraded = false

all_ok : List (String × ProbeResult) → Bool
all_ok [] = true
all_ok ((_, r) ∷ rest) = is_ok r.status && all_ok rest

abbrev overall : Bool → HealthStatus
overall true = ok
overall false = degraded

-- `check()`, by whether PostgreSQL and Redis answer
unfoldable pub check : String → String → Bool → Bool → HealthReport
unfolding all_ok
check service version database redis =
    let checks = probe "postgres" database ∷ probe "redis" redis ∷ [] in
    record {
      status = overall (all_ok checks);
      service = service;
      version = version;
      checks = checks;
    }

abbrev code : HealthStatus → ℕ
code ok = 200
code degraded = 503

-- `ready(request)`: the status of the response, and its report
unfoldable pub ready : String → String → Bool → Bool → ℕ × HealthReport
unfolding check
ready service version database redis =
    let report = check service version database redis in (code report.status, report)

-- `live()`
unfoldable pub live : String → String → HealthReport
live service version = record {
  status = ok;
  service = service;
  version = version;
  checks = ("process", record { status = ok; detail = "running" }) ∷ [];
}
