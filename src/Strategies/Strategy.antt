-- ===== src/Strategies/Strategy.antt =====
-- mt5_agent/strategies/base.py
use llm_mt5_agent.Prelude.{String}
use llm_mt5_agent.Python.Errors.{Result}
use llm_mt5_agent.Python.Float.{Datetime}
use llm_mt5_agent.Domain.Strategy.{MarketContext, StrategySignal}

-- `Strategy`: its name, and `analyze`, which may raise; the moment stamps the signal.
pub record Strategy (F : Type 0) : Type 0 where
  pub name : String
  pub analyze : MarketContext F → Datetime → Result (StrategySignal F)
