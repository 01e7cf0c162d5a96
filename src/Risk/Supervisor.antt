-- ===== src/Risk/Supervisor.antt =====
-- mt5_agent/risk/supervisor.py: the engine with the ledger of past verdicts.
pub mod Ledger
pub mod History
pub mod Runs
use llm_mt5_agent.Prelude.{
  String, Bool, true, false, not, Option, none, some, List, [], ◌∷◌, ◌++◌, map, is_empty,
  if◌then◌else◌,
}
use llm_mt5_agent.Python.Errors.{Result, ok, raise, ◌>>=◌}
use llm_mt5_agent.Python.Float.{Float, Datetime}
use llm_mt5_agent.Domain.Planning.{hold, action_eq, action_value, TradeProposal}
use llm_mt5_agent.Risk.Context.{DecisionRecord, RiskContext}
use llm_mt5_agent.Risk.Verdict.{ValidationResult, code_value}
use llm_mt5_agent.Risk.Engine.{RiskEngine, validate, now_or}

pub record SupervisorDecision (F : Type 0) : Type 0 where
  pub approved : Bool
  pub proposal : TradeProposal F
  pub result : ValidationResult
  pub decided_at : Datetime

-- `decision.codes`
unfoldable pub decision_codes : {F : Type 0} → SupervisorDecision F → List String
decision_codes d = map (λ v. code_value v.code) d.result.violations

pub record Supervisor (F : Type 0) : Type 0 where
  pub engine : RiskEngine F
  pub ledger : List DecisionRecord

-- `self._with_history(context)`
unfoldable pub with_history : {F : Type 0} → Supervisor F → RiskContext F → RiskContext F
with_history s x =
    if is_empty s.ledger then x else record x { recent_decisions = x.recent_decisions ++ s.ledger }

-- The ledger after a verdict: a HOLD is not recorded.
unfoldable pub recorded :
    {F : Type 0} → Supervisor F → TradeProposal F → Bool → Datetime → Supervisor F
recorded s p approved at =
    if not (action_eq p.action hold)
    then record s {
      ledger =
          s.ledger
          ++ (record {
            symbol = p.symbol;
            action = action_value p.action;
            approved = approved;
            at = at;
          }
              ∷ []);
    }
    else s

module _ {F : Type 0} ⦃fl : Float F⦄ (repr : String → String) where
  unfoldable pub check :
      Supervisor F
      → TradeProposal F
      → RiskContext F
      → Option Datetime
      → Datetime
      → Result ValidationResult
  unfolding with_history
  check s p x now clock = validate repr s.engine p (with_history s x) now clock

  -- The new supervisor and the decision, or the exception, which leaves the ledger alone.
  unfoldable pub review :
      Supervisor F
      → TradeProposal F
      → RiskContext F
      → Option Datetime
      → Datetime
      → Supervisor F × Result (SupervisorDecision F)
  unfolding with_history now_or recorded
  review s p x now clock =
      let at = now_or now clock in
      elim (validate repr s.engine p (with_history s x) (some at) clock) [
        | raise e ↦ (s, raise e)
        | ok result ↦ (
          recorded s p result.approved at,
          ok (record {
            approved = result.approved;
            proposal = p;
            result = result;
            decided_at = at;
          }),
        )
      ]
