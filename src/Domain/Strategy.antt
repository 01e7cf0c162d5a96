-- ===== src/Domain/Strategy.antt =====
-- mt5_agent/domain/strategy.py
use llm_mt5_agent.Prelude.{
  ℕ, is_empty, String, is_blank, str_eq, Bool, true, false, not, Option, List, [], ◌∷◌, ◌&&◌,
  if◌then◌else◌,
}
use llm_mt5_agent.Python.Errors.{Result, ok, raise, value_error, raise_if, ◌>>◌}
use llm_mt5_agent.Python.Float.{Float, ◌≤?◌, lit, Datetime}
use llm_mt5_agent.Domain.Market.{Timeframe, MarketSnapshot}
use llm_mt5_agent.Domain.Trading.{AccountState}

pub data Direction : Type 0 where
  long short flat : Direction

-- `direction.value`
unfoldable pub direction_value : Direction → String
direction_value long = "LONG"
direction_value short = "SHORT"
direction_value flat = "FLAT"

abbrev pub direction_eq : Direction → Direction → Bool
direction_eq long long = true
direction_eq short short = true
direction_eq flat flat = true
direction_eq _ _ = false

pub record Setup (F : Type 0) : Type 0 where
  pub identifier : String
  pub name : String
  pub direction : Direction
  pub confidence : F
  pub description : String

-- A value of the dictionary `facts`.
pub data Fact (F : Type 0) : Type 0 where
  count : ℕ → Fact F
  number : F → Fact F
  text : String → Fact F
  missing : Fact F

pub record MarketContext (F : Type 0) : Type 0 where
  pub symbol : String
  pub timeframe : Timeframe
  pub snapshot : MarketSnapshot F
  pub account_state : Option (AccountState F)

pub record StrategySignal (F : Type 0) : Type 0 where
  pub strategy : String
  pub symbol : String
  pub timeframe : Timeframe
  pub direction : Direction
  pub confidence : F
  pub setups : List (Setup F)
  pub facts : List (String × Fact F)
  pub rationale : String
  pub generated_at : Datetime

unfoldable pub new_market_context : {F : Type 0} → MarketContext F → Result (MarketContext F)
new_market_context c = do
  raise_if (is_blank c.symbol) "symbol must be non-empty"
  raise_if (not (str_eq c.snapshot.symbol c.symbol)) "snapshot.symbol must match context symbol"
  ok c

module _ {F : Type 0} ⦃fl : Float F⦄ where
  unfoldable pub new_setup : Setup F → Result (Setup F)
  new_setup s = do
    raise_if (is_blank s.identifier) "identifier must be non-empty"
    raise_if (not (lit 0 ≤? s.confidence && s.confidence ≤? lit 1)) "confidence must be 0..1"
    ok s

  unfoldable pub new_strategy_signal : StrategySignal F → Result (StrategySignal F)
  new_strategy_signal s = do
    raise_if (is_blank s.strategy) "strategy must be non-empty"
    raise_if (not (lit 0 ≤? s.confidence && s.confidence ≤? lit 1)) "confidence must be 0..1"
    ok s

-- The loop of `select_primary` and what follows it, where `first` is `signals[0]`.
unfoldable pub first_directional :
    {F : Type 0} → StrategySignal F → List (StrategySignal F) → StrategySignal F
first_directional first [] = first
first_directional first (s ∷ rest) =
    if not (direction_eq s.direction flat) then s else first_directional first rest

unfoldable pub select_primary : {F : Type 0} → List (StrategySignal F) → Result (StrategySignal F)
unfolding first_directional
select_primary [] =
    raise (record { class = value_error; message = "at least one signal is required" })
select_primary (s ∷ rest) = ok (first_directional s (s ∷ rest))

pub data DecisionAction : Type 0 where
  observe candidate skip : DecisionAction

pub record StrategyDecision (F : Type 0) : Type 0 where
  pub action : DecisionAction
  pub signal : StrategySignal F
  pub reasons : List String

unfoldable pub new_strategy_decision :
    {F : Type 0} → StrategyDecision F → Result (StrategyDecision F)
new_strategy_decision d = do raise_if (is_empty d.reasons) "reasons must be non-empty"; ok d
