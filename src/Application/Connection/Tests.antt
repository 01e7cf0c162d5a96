-- ===== src/Application/Connection/Tests.antt =====
-- The service on the connection adapter, with a terminal that starts at the second attempt.
use llm_mt5_agent.Prelude.{ltb, ℕ, ◌+◌, ◌≡◌, true, false, none, some, [], ◌∷◌, arith}
use llm_mt5_agent.Python.Step.{pure}
use llm_mt5_agent.Python.Errors.{Result, ok}
use llm_mt5_agent.Python.Decimal.{Decimal, decimal}
use llm_mt5_agent.Infrastructure.Mappers.{integer, boolean, Raw, mapping}
use llm_mt5_agent.Application.Connection.Attempts.{Ended}
use llm_mt5_agent.Application.Connection.Adapted.{adapter_port, Answered, ensure_connected-Answered}
use llm_mt5_agent.Domain.Terminal.{ConnectionHealth}
use llm_mt5_agent.Application.Connection.{RetryPolicy, Port, Link, ensure_connected, reconnect}
use llm_mt5_agent.Infrastructure.Connection.{Mt5, Adapter}
use llm_mt5_agent.Samples.{dec, quoted}
use llm_mt5_agent.Samples.Terminal.{conversions}

abbrev terminal_status : Raw Decimal
terminal_status =
    mapping
      (("connected", boolean true) ∷ ("trade_allowed", boolean true) ∷ ("build", integer 4000) ∷ [])

-- The world counts the attempts.
abbrev module_ : Mt5 (Raw Decimal) ℕ
module_ = record {
  initialize = λ args w. (ok (ltb 0 w), w + 1);
  login = λ id password server. pure true;
  shutdown = pure tt;
  account_info = pure none;
  terminal_info = pure (some terminal_status);
  last_error = pure "starting";
}

abbrev adapter : Adapter (Raw Decimal) ℕ
adapter = record { mt5 = none; connected = false; world = 0 }

abbrev port : Port (Adapter (Raw Decimal) ℕ)
port =
    adapter_port conversions quoted (ok module_)
      (record { timeout_ms = 60_000; portable = false; path = none; login = none; server = none })
      none

abbrev policy : RetryPolicy Decimal
policy = record {
  max_attempts = 3;
  delay_seconds = dec 200_000;
  backoff_factor = dec 100_000;
  max_delay_seconds = none;
}

abbrev IsUp : Adapter (Raw Decimal) ℕ → Type 0
IsUp a = a.connected ≡ true

abbrev attempted : Result ConnectionHealth × Link Decimal (Adapter (Raw Decimal) ℕ)
attempted = ensure_connected policy port adapter

ensure_connected-Answered_example :
    Ended policy attempted
    × Answered IsUp attempted
    × Answered IsUp (reconnect policy port none adapter)
ensure_connected-Answered_example =
    ensure_connected-Answered conversions quoted (ok module_)
      (record { timeout_ms = 60_000; portable = false; path = none; login = none; server = none })
      none policy adapter (omega arith)
