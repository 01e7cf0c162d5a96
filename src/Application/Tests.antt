-- ===== src/Application/Tests.antt =====
-- Runs of the watchdog and of a health check, and the theorems at those inputs.
use llm_mt5_agent.Prelude.{
  ℕ, ◌+◌, ltb, some, ◌*ℤ◌, ◌-ℤ◌, ◌+ℤ◌, ◌≡◌, refl, true, none, List, [], ◌∷◌, map, arith,
}
use llm_mt5_agent.Python.Errors.{Result, ok, raise, mt5_error}
use llm_mt5_agent.Python.Decimal.{Decimal, decimal}
use llm_mt5_agent.Domain.Market.{min_of}
use llm_mt5_agent.Application.Health.{healthy, unhealthy, Probe, check_health}
use llm_mt5_agent.Application.Health.Worst.{check_health-worst}
use llm_mt5_agent.Application.Watchdog.{WatchdogConfig, should_halt}
use llm_mt5_agent.Application.Watchdog.Streaks.{
  Note, streak, succeeded, failed_at, after, has_streak, should_halt-has_streak,
}
use llm_mt5_agent.Application.Connection.{
  RetryPolicy, Port, delay_for, capped, sleep, pause, paused, next, attempts, continue, sort_error,
  sort_health, after_connect, ensure_connected, reconnect,
}
use llm_mt5_agent.Application.Connection.Reconnect.{Verified, reconnect-Verified}
use llm_mt5_agent.Application.Connection.Attempts.{Ended, ensure_connected-Ended}
use llm_mt5_agent.Samples.{dec, noon}

abbrev limits : WatchdogConfig Decimal
limits = record { max_consecutive_failures = 2; stale_after_s = dec 0 }

-- Two failures in a row, the latest note first, and then a success.
abbrev notes : List Note
notes = succeeded "cycle" ∷ failed_at "cycle" "down" noon ∷ failed_at "cycle" "down" noon ∷ []

should_halt-has_streak_example : should_halt (after limits notes) noon ≡ has_streak 2 notes
should_halt-has_streak_example = should_halt-has_streak limits notes noon (omega arith)

halts : has_streak 2 notes ≡ true
unfolding has_streak streak
halts = refl

-- One probe reports, one raises.
abbrev probes : List (Probe Decimal)
probes =
    ("mt5", ok (record { name = "mt5"; status = healthy; message = ""; latency_ms = none }))
    ∷ ("llm", raise (record { class = mt5_error; message = "down" }))
    ∷ []

check_health-worst_example :
    (map (λ c. c.name) (check_health probes noon).components ≡ "mt5" ∷ "llm" ∷ [])
    × ((check_health probes noon).status ≡ unhealthy)
check_health-worst_example = check_health-worst probes noon

abbrev policy : RetryPolicy Decimal
policy = record {
  max_attempts = 3;
  delay_seconds = dec 200_000;
  backoff_factor = dec 200_000;
  max_delay_seconds = some (dec 300_000);
}

-- A terminal that is up after two attempts; the state counts them.
abbrev port : Port ℕ
port = record {
  connect = λ w. (ok tt, w + 1);
  check_health = λ w. (
    ok (record {
      connected = ltb 2 w;
      trade_allowed = true;
      account_login = none;
      terminal_company = "";
      error = "down";
    }),
    w,
  );
  disconnect = λ w. (ok tt, w);
}

-- The delays are 2, and 4 capped at 3.
delays : (ensure_connected policy port 0).1.slept ≡ dec 200_000 ∷ dec 300_000 ∷ []
unfolding ensure_connected attempts next after_connect sort_error sort_health pause paused delay_for
    capped sleep continue min_of ◌*ℤ◌ ◌-ℤ◌ ◌+ℤ◌
delays = refl

ensure_connected-Ended_example : Ended policy (ensure_connected policy port 0)
ensure_connected-Ended_example = ensure_connected-Ended policy port 0 (omega arith)

-- A check that passes.
abbrev passing : ℕ → Result (Unit {0}) × ℕ
passing w = (ok tt, w + 1)

reconnect-Verified_example : Verified policy port 0 passing (reconnect policy port (some passing) 0)
reconnect-Verified_example = reconnect-Verified policy port 0 passing (omega arith)
