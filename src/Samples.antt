-- ===== src/Samples.antt =====
-- Concrete values for the tests: prices are decimals with five places.
pub mod Broker
pub mod Terminal
pub mod Candles
use llm_mt5_agent.Prelude.{ℕ, ◌*◌, ◌+◌, String, ◌<>◌, true, none, some, [], ◌∷◌, pos}
use llm_mt5_agent.Python.Float.{Datetime}
use llm_mt5_agent.Python.Decimal.{Decimal, units, decimal}
use llm_mt5_agent.Domain.Account.{AccountInfo}
use llm_mt5_agent.Domain.Trading.{AccountState}
use llm_mt5_agent.Domain.Planning.{TradeProposal, TradeAction}
use llm_mt5_agent.Risk.Config.{RiskConfig}
use llm_mt5_agent.Risk.Context.{RiskContext}
use llm_mt5_agent.Risk.Rules.{default_rules}
use llm_mt5_agent.Risk.Engine.{RiskEngine}
use llm_mt5_agent.Risk.Supervisor.{Supervisor}

-- The number `n / 100000`.
abbrev pub dec : ℕ → Decimal
dec n = units (pos n)

-- Noon of some day, and a number of seconds after it.
abbrev pub noon : Datetime
noon = 63_900_000_000_000_000 + 43_200_000_000 * 1

abbrev pub quoted : String → String
quoted s = "'" <> (s <> "'")

abbrev pub account : AccountInfo Decimal
account = record {
  login = 7;
  server = "Demo";
  currency = "USD";
  balance = dec 100_000_000;
  equity = dec 100_000_000;
  margin = dec 0;
  free_margin = dec 100_000_000;
  profit = dec 0;
  leverage = 100;
  trade_allowed = true;
  trade_mode = 0;
  name = "demo";
}

abbrev pub account_state : AccountState Decimal
account_state = record {
  account = account;
  open_positions = 0;
  pending_orders = 0;
  exposure_volume = dec 0;
  net_volume = dec 0;
  floating_profit = dec 0;
  day_realized_pnl = some (dec 0);
}

-- `RiskConfig()`
abbrev pub config : RiskConfig Decimal
config = record {
  max_risk_pct_per_trade = dec 100_000;
  max_daily_loss_pct = dec 300_000;
  max_open_positions = 3;
  max_exposure_volume = dec 100_000;
  allowed_symbols = none;
  allowed_sessions = record { start_hour = 0; end_hour = 24 } ∷ [];
  max_spread_points = none;
  require_stop_loss = true;
  require_take_profit = true;
  min_stop_points = dec 0;
  duplicate_window_s = dec 60_000_000;
  cooldown_s = dec 6_000_000;
  min_margin_level_pct = dec 10_000_000;
}

abbrev pub context_at : Datetime → RiskContext Decimal
context_at t = record {
  account = account_state;
  positions = [];
  orders = [];
  spreads_points = [];
  symbol_points = [];
  server_time = t;
  day_pnl = some (dec 0);
  recent_decisions = [];
}

abbrev pub proposal : TradeProposal Decimal
proposal = record {
  action = TradeAction.buy;
  symbol = "EURUSD";
  confidence = dec 60_000;
  rationale = "structure break";
  strategy = "donchian_breakout";
  setup_id = "";
  entry = some (dec 110_000);
  stop_loss = some (dec 109_000);
  take_profit = some (dec 112_000);
  risk_pct = dec 50_000;
  volume = some (dec 1_000);
  provider = "stub";
  model = "stub";
  latency_ms = dec 0;
  created_at = noon;
}

abbrev pub engine : RiskEngine Decimal
engine = record { config = config; rules = default_rules }

abbrev pub supervisor : Supervisor Decimal
supervisor = record { engine = engine; ledger = [] }
