-- ===== src/Strategies/Null.antt =====
-- mt5_agent/strategies/null_strategy.py
use llm_mt5_agent.Prelude.{length, none, some, [], ◌∷◌}
use llm_mt5_agent.Python.Errors.{Result}
use llm_mt5_agent.Python.Float.{Float, lit, Datetime}
use llm_mt5_agent.Domain.Market.{MarketSnapshot, latest_close}
use llm_mt5_agent.Domain.Strategy.{
  flat, Fact, missing, MarketContext, StrategySignal, new_strategy_signal,
}
use llm_mt5_agent.Strategies.Strategy.{Strategy}

module _ {F : Type 0} ⦃fl : Float F⦄ where
  -- `candles[-1].close if candles else None` as a fact
  unfoldable pub close_fact : MarketSnapshot F → Fact F
  close_fact s = elim (latest_close s) [ none ↦ missing | some x ↦ Fact.number x ]

  -- `NullStrategy.analyze(context)`
  unfoldable pub null_analyze : MarketContext F → Datetime → Result (StrategySignal F)
  null_analyze c clock = new_strategy_signal (record {
    strategy = "null";
    symbol = c.symbol;
    timeframe = c.timeframe;
    direction = flat;
    confidence = lit 0;
    setups = [];
    facts =
        ("candles", Fact.count (length c.snapshot.candles))
        ∷ ("latest_close", close_fact c.snapshot)
        ∷ ("mode", Fact.text "observation-only")
        ∷ [];
    rationale = "NullStrategy is observation-only and never emits direction.";
    generated_at = clock;
  })

  unfoldable pub null_strategy : Strategy F
  null_strategy = record { name = "null"; analyze = null_analyze }
