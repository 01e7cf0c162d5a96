-- ===== src/Risk/Engine.antt =====
-- mt5_agent/risk/engine.py: runs every rule and approves only when all pass.
pub mod Reports
use llm_mt5_agent.Prelude.{
  String, Bool, true, false, not, Option, none, some, List, [], ◌∷◌, ◌++◌, is_empty, if◌then◌else◌,
}
use llm_mt5_agent.Python.Errors.{Result, ok, ◌>>=◌}
use llm_mt5_agent.Python.Float.{Float, Datetime}
use llm_mt5_agent.Domain.Planning.{hold, action_eq, TradeProposal}
use llm_mt5_agent.Risk.Config.{RiskConfig}
use llm_mt5_agent.Risk.Context.{RiskContext}
use llm_mt5_agent.Risk.Verdict.{Violation, ValidationResult, new_validation_result}
use llm_mt5_agent.Risk.Rules.{RiskRule, check}

pub record RiskEngine (F : Type 0) : Type 0 where
  pub config : RiskConfig F
  pub rules : List RiskRule

-- `violations.append(violation)` unless it is None
unfoldable pub append_some : List Violation → Option Violation → List Violation
append_some vs none = vs
append_some vs (some v) = vs ++ (v ∷ [])

-- `now or clock()`
unfoldable pub now_or : Option Datetime → Datetime → Datetime
now_or none clock = clock
now_or (some now) clock = now

module _ {F : Type 0} ⦃fl : Float F⦄ (repr : String → String) where
  -- The loop of `validate` over the rules.
  unfoldable pub run_rules :
      TradeProposal F
      → RiskContext F
      → RiskConfig F
      → List RiskRule
      → List Violation
      → Result (List Violation)
  run_rules p x c [] vs = ok vs
  run_rules p x c (rule ∷ rest) vs = do
    violation ← check repr rule p x c
    run_rules p x c rest (append_some vs violation)

  unfoldable pub validate :
      RiskEngine F
      → TradeProposal F
      → RiskContext F
      → Option Datetime
      → Datetime
      → Result ValidationResult
  unfolding run_rules append_some now_or
  validate e p x now clock =
      let at = now_or now clock in
      if action_eq p.action hold
      then new_validation_result (record { approved = true; violations = []; checked_at = at })
      else do
        vs ← run_rules p x e.config e.rules []
        if not (is_empty vs)
            then new_validation_result
                (record { approved = false; violations = vs; checked_at = at })
            else new_validation_result
                (record { approved = true; violations = []; checked_at = at })
