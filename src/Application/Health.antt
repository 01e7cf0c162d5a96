-- ===== src/Application/Health.antt =====
-- mt5_agent/application/health.py
pub mod Worst
use llm_mt5_agent.Prelude.{
  String, str_eq, Bool, true, false, not, Option, none, List, [], ◌∷◌, any, is_empty, if◌then◌else◌,
  map,
}
use llm_mt5_agent.Python.Errors.{Exception, Result, ok, raise}
use llm_mt5_agent.Python.Float.{Datetime}

pub data HealthStatus : Type 0 where
  healthy degraded unhealthy : HealthStatus

abbrev pub health_eq : HealthStatus → HealthStatus → Bool
health_eq healthy healthy = true
health_eq degraded degraded = true
health_eq unhealthy unhealthy = true
health_eq _ _ = false

-- `HealthStatus.value`
unfoldable pub health_status_value : HealthStatus → String
health_status_value healthy = "HEALTHY"
health_status_value degraded = "DEGRADED"
health_status_value unhealthy = "UNHEALTHY"

pub record ComponentHealth (F : Type 0) : Type 0 where
  pub name : String
  pub status : HealthStatus
  pub message : String
  pub latency_ms : Option F

pub record SystemHealth (F : Type 0) : Type 0 where
  pub status : HealthStatus
  pub components : List (ComponentHealth F)
  pub checked_at : Datetime

-- `overall(components)`
unfoldable pub overall : {F : Type 0} → List (ComponentHealth F) → HealthStatus
overall components =
    if is_empty components
    then unhealthy
    else if any (λ c. health_eq c.status unhealthy) components
    then unhealthy
    else if any (λ c. health_eq c.status degraded) components
    then degraded
    else healthy

-- A probe with its name: it reports or raises.
abbrev pub Probe : Type 0 → Type 0
Probe F = String × Result (ComponentHealth F)

-- `except Exception as exc`
unfoldable pub reported_by : {F : Type 0} → String → Result (ComponentHealth F) → ComponentHealth F
reported_by name (ok c) = c
reported_by name (raise e) = record {
  name = name;
  status = unhealthy;
  message = e.message;
  latency_ms = none;
}

-- The body of the loop of `HealthService.check`.
unfoldable pub run_probe : {F : Type 0} → Probe F → ComponentHealth F
run_probe (name, outcome) =
    let reported = reported_by name outcome in
    if not (str_eq reported.name name)
    then record {
      name = name;
      status = reported.status;
      message = reported.message;
      latency_ms = reported.latency_ms;
    }
    else reported

-- `HealthService(probes).check()`
unfoldable pub check_health : {F : Type 0} → List (Probe F) → Datetime → SystemHealth F
check_health probes clock =
    let components = map run_probe probes in
    record { status = overall components; components = components; checked_at = clock }
