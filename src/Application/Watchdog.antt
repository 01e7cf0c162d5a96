-- ===== src/Application/Watchdog.antt =====
-- mt5_agent/application/watchdog.py: the failure and staleness tracker that halts the agent.
pub mod Streaks
use llm_mt5_agent.Prelude.{
  ℕ, zero, suc, ◌+◌, ◌-◌, text_length, String, str_eq, Bool, true, false, not, ◌&&◌, Option, none,
  some, List, [], ◌∷◌, any, leb, is_none, if◌then◌else◌, ltb,
}
use llm_mt5_agent.Python.Errors.{Result, ok, raise_if, ◌>>◌}
use llm_mt5_agent.Python.Float.{Float, ◌<?◌, lit, Datetime, total_seconds}
use llm_mt5_agent.Application.Health.{HealthStatus, healthy, degraded, unhealthy, health_eq}

pub record WatchdogConfig (F : Type 0) : Type 0 where
  pub max_consecutive_failures : ℕ
  pub stale_after_s : F

unfoldable pub new_watchdog_config :
    {F : Type 0} ⦃fl : Float F⦄ → WatchdogConfig F → Result (WatchdogConfig F)
new_watchdog_config c = do
  raise_if (ltb c.max_consecutive_failures 1) "max_consecutive_failures must be >= 1"
  raise_if (c.stale_after_s <? lit 0) "stale_after_s must be >= 0"
  ok c

-- The counter of each kind.
abbrev pub Counters : Type 0
Counters = List (String × ℕ)

-- `counters.get(kind, 0)`
unfoldable pub count_of : Counters → String → ℕ
count_of [] kind = 0
count_of ((k, n) ∷ rest) kind = if str_eq k kind then n else count_of rest kind

-- `counters[kind] = value`
unfoldable pub set_count : Counters → String → ℕ → Counters
set_count [] kind value = (kind, value) ∷ []
set_count ((k, n) ∷ rest) kind value =
    if str_eq k kind then (k, value) ∷ rest else (k, n) ∷ set_count rest kind value

-- `any(count >= limit for count in counters.values())`
unfoldable pub any_over : ℕ → Counters → Bool
any_over limit counters = any (λ entry. leb limit entry.1) counters

pub record Watchdog (F : Type 0) : Type 0 where
  pub config : WatchdogConfig F
  pub consecutive : Counters
  pub successes : ℕ
  pub failures : ℕ
  pub last_error : String
  pub last_observation_at : Option Datetime
  pub tripped_at : Option Datetime

unfoldable pub new_watchdog : {F : Type 0} → WatchdogConfig F → Watchdog F
new_watchdog config = record {
  config = config;
  consecutive = [];
  successes = 0;
  failures = 0;
  last_error = "";
  last_observation_at = none;
  tripped_at = none;
}

-- `text[n:]` and `text[-n:]`
unfoldable pub drop_chars : ℕ → String → String
drop_chars zero s = s
drop_chars (suc n) String.[] = ""
drop_chars (suc n) (String.◌∷◌ c s) = drop_chars n s

unfoldable pub last_chars : ℕ → String → String
last_chars n s = drop_chars (text_length s - n) s

module _ {F : Type 0} where
  unfoldable pub note_success : Watchdog F → String → Watchdog F
  note_success w kind = record w {
    consecutive = set_count w.consecutive kind 0;
    successes = w.successes + 1;
  }

  unfoldable pub note_failure : Watchdog F → String → String → Datetime → Watchdog F
  note_failure w kind error clock =
      let count = count_of w.consecutive kind + 1 in
      record w {
        consecutive = set_count w.consecutive kind count;
        failures = w.failures + 1;
        last_error = if str_eq error "" then w.last_error else last_chars 500 error;
        tripped_at =
            if leb w.config.max_consecutive_failures count && is_none w.tripped_at
            then some clock
            else w.tripped_at;
      }

  -- `self.note_observation(at)`
  unfoldable pub note_observation : Watchdog F → Option Datetime → Datetime → Watchdog F
  note_observation w at clock = record w {
    last_observation_at = some (elim at [ none ↦ clock | some t ↦ t ]);
  }

  unfoldable pub reset : Watchdog F → Watchdog F
  reset w = record w { consecutive = []; tripped_at = none; last_error = "" }

module _ {F : Type 0} ⦃fl : Float F⦄ where
  -- The last observation is older than `stale_after_s`.
  unfoldable pub is_stale : Watchdog F → Datetime → Bool
  is_stale w now = elim w.last_observation_at [
    | none ↦ false
    | some t ↦ lit 0 <? w.config.stale_after_s && w.config.stale_after_s <? total_seconds now t
  ]

  unfoldable pub status : Watchdog F → Datetime → HealthStatus
  status w now =
      if not (is_none w.tripped_at)
      then unhealthy
      else if any_over w.config.max_consecutive_failures w.consecutive
      then unhealthy
      else if is_stale w now
      then degraded
      else healthy

  unfoldable pub should_halt : Watchdog F → Datetime → Bool
  should_halt w now = health_eq (status w now) unhealthy
