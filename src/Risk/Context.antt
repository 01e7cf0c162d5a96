-- ===== src/Risk/Context.antt =====
-- mt5_agent/risk/context.py. A `Mapping[str, float]` is an association list.
use llm_mt5_agent.Prelude.{String, str_eq, Bool, Option, none, some, List, [], ◌∷◌, if◌then◌else◌}
use llm_mt5_agent.Python.Float.{Datetime}
use llm_mt5_agent.Domain.Trading.{AccountState, Order, Position}

pub record DecisionRecord : Type 0 where
  pub symbol : String
  pub action : String
  pub approved : Bool
  pub at : Datetime

abbrev pub Dict : Type 0 → Type 0
Dict V = List (String × V)

-- `mapping.get(key)`
unfoldable pub get : {V : Type 0} → Dict V → String → Option V
get [] key = none
get ((k, v) ∷ rest) key = if str_eq k key then some v else get rest key

pub record RiskContext (F : Type 0) : Type 0 where
  pub account : AccountState F
  pub positions : List (Position F)
  pub orders : List (Order F)
  pub spreads_points : Dict F
  pub symbol_points : Dict F
  pub server_time : Datetime
  pub day_pnl : Option F
  pub recent_decisions : List DecisionRecord
