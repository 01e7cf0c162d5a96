-- ===== src/Domain/Planning.antt =====
-- mt5_agent/domain/planning.py
use llm_mt5_agent.Prelude.{
  String, is_blank, str_eq, Bool, true, false, not, Option, none, some, List, ◌&&◌, ◌||◌, is_none,
  all,
}
use llm_mt5_agent.Python.Errors.{Result, ok, raise_if}
use llm_mt5_agent.Python.Bind.{◌>>◌}
use llm_mt5_agent.Python.Float.{Float, ◌≤?◌, lit, Datetime}
use llm_mt5_agent.Domain.Market.{Timeframe, MarketSnapshot}
use llm_mt5_agent.Domain.Trading.{Position, AccountState}
use llm_mt5_agent.Domain.Strategy.{StrategySignal}

pub data TradeAction : Type 0 where
  buy sell hold : TradeAction

-- `action.value`
unfoldable pub action_value : TradeAction → String
action_value buy = "BUY"
action_value sell = "SELL"
action_value hold = "HOLD"

abbrev pub action_eq : TradeAction → TradeAction → Bool
action_eq buy buy = true
action_eq sell sell = true
action_eq hold hold = true
action_eq _ _ = false

pub record MemoryNote : Type 0 where
  pub kind : String
  pub text : String

unfoldable pub new_memory_note : MemoryNote → Result MemoryNote
new_memory_note n = do
  raise_if (is_blank n.kind || is_blank n.text) "kind and text must be non-empty"
  ok n

pub record PlannerInput (F : Type 0) : Type 0 where
  pub symbol : String
  pub timeframe : Timeframe
  pub snapshot : MarketSnapshot F
  pub signal : StrategySignal F
  pub account : Option (AccountState F)
  pub open_positions : List (Position F)
  pub memory : List MemoryNote

unfoldable pub new_planner_input : {F : Type 0} → PlannerInput F → Result (PlannerInput F)
new_planner_input i = do
  raise_if (is_blank i.symbol) "symbol must be non-empty"
  raise_if (not (str_eq i.snapshot.symbol i.symbol)) "snapshot.symbol must match input symbol"
  raise_if (not (str_eq i.signal.symbol i.symbol)) "signal.symbol must match input symbol"
  raise_if (not (all (λ p. str_eq p.symbol i.symbol) i.open_positions))
      "open_positions must match input symbol"
  ok i

pub record TradeProposal (F : Type 0) : Type 0 where
  pub action : TradeAction
  pub symbol : String
  pub confidence : F
  pub rationale : String
  pub strategy : String
  pub setup_id : String
  pub entry : Option F
  pub stop_loss : Option F
  pub take_profit : Option F
  pub risk_pct : F
  pub volume : Option F
  pub provider : String
  pub model : String
  pub latency_ms : F
  pub created_at : Datetime

unfoldable pub is_actionable : {F : Type 0} → TradeProposal F → Bool
is_actionable p = action_eq p.action buy || action_eq p.action sell

module _ {F : Type 0} ⦃fl : Float F⦄ where
  -- `x is not None and x <= 0`
  abbrev pub set_nonpositive : Option F → Bool
  set_nonpositive none = false
  set_nonpositive (some x) = x ≤? lit 0

  unfoldable pub new_trade_proposal : TradeProposal F → Result (TradeProposal F)
  new_trade_proposal p = do
    raise_if (is_blank p.symbol) "symbol must be non-empty"
    raise_if (not (lit 0 ≤? p.confidence && p.confidence ≤? lit 1)) "confidence must be 0..1"
    raise_if (is_blank p.rationale) "rationale must be non-empty"
    raise_if (not (lit 0 ≤? p.risk_pct && p.risk_pct ≤? lit 100)) "risk_pct must be 0..100"
    raise_if (set_nonpositive p.volume) "volume must be positive when set"
    raise_if (set_nonpositive p.entry) "prices must be positive when set"
    raise_if (set_nonpositive p.stop_loss) "prices must be positive when set"
    raise_if (set_nonpositive p.take_profit) "prices must be positive when set"
    raise_if (action_eq p.action hold && (not (is_none p.entry) || not (is_none p.volume)))
        "HOLD proposals carry no entry/volume"
    ok p
