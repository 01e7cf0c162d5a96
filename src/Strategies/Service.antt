-- ===== src/Strategies/Service.antt =====
-- mt5_agent/application/strategy_service.py
pub mod Reports
pub mod Primary
pub mod Triage
use llm_mt5_agent.Prelude.{if◌then◌else◌, is_empty, ◌<>◌, not, List, [], ◌∷◌}
use llm_mt5_agent.Python.Bind.{◌>>=◌, ◌>>◌}
use llm_mt5_agent.Python.Errors.{Exception, class_name, Result, ok, raise, raise_if}
use llm_mt5_agent.Python.Float.{Float, lit, Datetime}
use llm_mt5_agent.Domain.Strategy.{
  flat, direction_value, Fact, MarketContext, StrategySignal, new_strategy_signal, DecisionAction,
  StrategyDecision, new_strategy_decision,
}
use llm_mt5_agent.Strategies.Strategy.{Strategy}

-- `StrategyService(strategies)`
unfoldable pub new_strategy_service : {F : Type 0} → List (Strategy F) → Result (List (Strategy F))
new_strategy_service strategies = do
  raise_if (is_empty strategies) "at least one strategy is required"
  ok strategies

module _ {F : Type 0} ⦃fl : Float F⦄ where
  -- `_error_signal(strategy, context, exc)`
  unfoldable pub error_signal :
      Strategy F → MarketContext F → Exception → Datetime → Result (StrategySignal F)
  error_signal s c e clock = new_strategy_signal (record {
    strategy = s.name;
    symbol = c.symbol;
    timeframe = c.timeframe;
    direction = flat;
    confidence = lit 0;
    setups = [];
    facts = ("error", Fact.text (class_name e.class <> (": " <> e.message))) ∷ [];
    rationale = "Strategy raised; degraded to FLAT (fail safely).";
    generated_at = clock;
  })

  -- The handler of the loop of `analyze`.
  unfoldable pub signal_or_error :
      Strategy F
      → MarketContext F
      → Datetime
      → Result (StrategySignal F)
      → Result (StrategySignal F)
  signal_or_error s c clock (ok signal) = ok signal
  signal_or_error s c clock (raise e) = error_signal s c e clock

  -- `StrategyService.analyze(context)`
  unfoldable pub analyze_all :
      List (Strategy F) → MarketContext F → Datetime → Result (List (StrategySignal F))
  analyze_all [] c clock = ok []
  analyze_all (s ∷ rest) c clock = do
    signal ← signal_or_error s c clock (s.analyze c clock)
    signals ← analyze_all rest c clock
    ok (signal ∷ signals)

  -- `triage(signal)`
  unfoldable pub triage : StrategySignal F → Result (StrategyDecision F)
  triage s = elim s.direction [
    | flat ↦
        if not (is_empty s.setups)
        then new_strategy_decision (record {
          action = DecisionAction.observe;
          signal = s;
          reasons = "flat with setups" ∷ [];
        })
        else new_strategy_decision
            (record { action = DecisionAction.skip; signal = s; reasons = "no direction" ∷ [] })
    | direction ↦ new_strategy_decision (record {
      action = DecisionAction.candidate;
      signal = s;
      reasons = (direction_value direction <> " setup") ∷ [];
    })
  ]

  unfoldable pub triage_all : List (StrategySignal F) → Result (List (StrategyDecision F))
  triage_all [] = ok []
  triage_all (s ∷ rest) = do
    decision ← triage s
    decisions ← triage_all rest
    ok (decision ∷ decisions)

  -- `StrategyService.decide(context)`
  unfoldable pub decide :
      List (Strategy F) → MarketContext F → Datetime → Result (List (StrategyDecision F))
  decide strategies c clock = analyze_all strategies c clock >>= triage_all
