-- ===== src/Infrastructure/Tests.antt =====
-- The adapter on a module that refuses the login.
use llm_mt5_agent.Prelude.{ℕ, ◌≡◌, refl, true, false, none, some}
use llm_mt5_agent.Python.Step.{pure, handled, catch, continue, ◌>>=◌}
use llm_mt5_agent.Python.Errors.{value_error, Result, ok, raise}
use llm_mt5_agent.Python.Decimal.{Decimal, decimal}
use llm_mt5_agent.Domain.Account.{AccountInfo}
use llm_mt5_agent.Domain.Terminal.{TerminalInfo, Credentials, ConnectionConfig, ConnectionHealth}
use llm_mt5_agent.Infrastructure.Connection.{
  Mt5, Adapter, on_module, last_error_text, fail_with_code, loaded, require_module, login_step,
  connect, check_health,
}
use llm_mt5_agent.Infrastructure.Connection.Flag.{
  FlagAfter, HealthFor, connect-FlagAfter, check_health-HealthFor,
}
use llm_mt5_agent.Samples.{account, quoted}

abbrev module_ : Mt5 (Unit {0}) ℕ
module_ = record {
  initialize = λ args. pure true;
  login = λ id password server. pure false;
  shutdown = pure tt;
  account_info = pure (some tt);
  terminal_info = pure none;
  last_error = pure "refused";
}

abbrev adapter : Adapter (Unit {0}) ℕ
adapter = record { mt5 = some module_; connected = true; world = 0 }

abbrev config : ConnectionConfig
config = record { timeout_ms = 60_000; portable = false; path = none; login = none; server = none }

abbrev credentials : Credentials
credentials = record { login = 7; password = "p"; server = "Demo" }

abbrev connected_again : Result (Unit {0}) × Adapter (Unit {0}) ℕ
connected_again = connect (ok module_) quoted config (some credentials) adapter

-- The login is refused and the terminal shut down, yet the adapter still counts as connected.
still_connected : (connected_again.1.connected ≡ true) × ¬ (connected_again.0 ≡ ok tt)
unfolding connect require_module loaded on_module login_step fail_with_code last_error_text catch
    handled ◌>>=◌ continue
still_connected = (refl, λ e. cc)

connect-FlagAfter_example : FlagAfter (ok module_) true connected_again.0 connected_again.1
connect-FlagAfter_example = connect-FlagAfter (ok module_) adapter quoted config (some credentials)

abbrev map_account : Unit {0} → Result (AccountInfo Decimal)
map_account raw = ok account

abbrev map_terminal : Unit {0} → Result TerminalInfo
map_terminal raw = raise (record { class = value_error; message = "bad" })

abbrev probed : Result ConnectionHealth × Adapter (Unit {0}) ℕ
probed = check_health (ok module_) map_account map_terminal adapter

check_health-HealthFor_example : HealthFor (ok module_) true probed.0 probed.1
check_health-HealthFor_example =
    check_health-HealthFor (ok module_) adapter map_account map_terminal
