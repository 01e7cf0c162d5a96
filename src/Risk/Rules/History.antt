-- ===== src/Risk/Rules/History.antt =====
-- mt5_agent/risk/rules.py: the checks against open positions and past decisions.
use llm_mt5_agent.Prelude.{
  String, ◌<>◌, str_eq, Bool, true, false, not, Option, none, some, List, [], ◌∷◌, ◌&&◌, ◌||◌,
  is_empty, if◌then◌else◌,
}
use llm_mt5_agent.Python.Float.{Float, ◌<?◌, ◌≤?◌, lit, Datetime, total_seconds}
use llm_mt5_agent.Domain.Planning.{TradeAction, buy, sell, hold, action_value, TradeProposal}
use llm_mt5_agent.Domain.Trading.{PositionSide, side_eq, side_name, Position}
use llm_mt5_agent.Risk.Config.{RiskConfig}
use llm_mt5_agent.Risk.Context.{DecisionRecord, RiskContext}
use llm_mt5_agent.Risk.Rules.Outcome.{duplicate, cooldown, Checked, pass, fail}

-- `_side_of(proposal)`
unfoldable pub side_of : TradeAction → Option PositionSide
side_of buy = some PositionSide.buy
side_of sell = some PositionSide.sell
side_of hold = none

module _ {F : Type 0} ⦃fl : Float F⦄ where
  -- The loop over the open positions: is one of the symbol and side?
  unfoldable pub has_position : String → PositionSide → List (Position F) → Bool
  has_position symbol side [] = false
  has_position symbol side (q ∷ rest) =
      if str_eq q.symbol symbol && side_eq q.side side then true else has_position symbol side rest

  -- The loop over the recent decisions: the age of the first approval of the same trade in the
  -- window.
  unfoldable pub recent_approval : TradeProposal F → F → Datetime → List DecisionRecord → Option F
  recent_approval p window now [] = none
  recent_approval p window now (r ∷ rest) =
      let later = recent_approval p window now rest in
      let age = total_seconds now r.at in
      if not r.approved || str_eq r.action (action_value hold)
      then later
      else if not (str_eq r.symbol p.symbol) || not (str_eq r.action (action_value p.action))
      then later
      else if lit 0 ≤? age && age ≤? window
      then some age
      else later

  -- What follows the loop over the decisions: it found an approval of that age, or none.
  unfoldable pub check_approval : TradeProposal F → Option F → Checked
  check_approval p none = pass
  check_approval p (some age) = fail duplicate (
      action_value p.action
      <> (" on " <> (p.symbol <> (" approved " <> (fl.fixed 0 age <> "s ago")))))

  unfoldable pub check_side :
      TradeProposal F → RiskContext F → RiskConfig F → Option PositionSide → Checked
  unfolding check_approval
  check_side p x c none = pass
  check_side p x c (some side) =
      if has_position p.symbol side x.positions
      then fail duplicate
          ("open " <> (side_name side <> (" position on " <> (p.symbol <> " already exists"))))
      else if c.duplicate_window_s ≤? lit 0
      then pass
      else check_approval p
          (recent_approval p c.duplicate_window_s x.server_time x.recent_decisions)

  unfoldable pub check_duplicate : TradeProposal F → RiskContext F → RiskConfig F → Checked
  unfolding check_side
  check_duplicate p x c = check_side p x c (side_of p.action)

  -- `latest is None or age < latest`
  abbrev pub is_later : Option F → F → Bool
  is_later none age = true
  is_later (some latest) age = age <? latest

  -- The body of the loop of the cooldown rule.
  unfoldable pub younger : String → Datetime → Option F → DecisionRecord → Option F
  younger symbol now latest r =
      let age = total_seconds now r.at in
      if not (str_eq r.symbol symbol)
      then latest
      else if lit 0 ≤? age && is_later latest age
      then some age
      else latest

  -- The loop of the cooldown rule: the least age of a decision on the symbol.
  unfoldable pub latest_age : String → Datetime → Option F → List DecisionRecord → Option F
  unfolding younger
  latest_age symbol now latest [] = latest
  latest_age symbol now latest (r ∷ rest) = latest_age symbol now (younger symbol now latest r) rest

  -- What follows the loop of the cooldown rule.
  unfoldable pub check_quiet : String → F → Option F → Checked
  check_quiet symbol period none = pass
  check_quiet symbol period (some latest) =
      if latest <? period
      then fail cooldown
          ("cooldown: last decision on " <> (symbol <> (" " <> (fl.fixed 0 latest <> "s ago"))))
      else pass

  unfoldable pub check_cooldown : TradeProposal F → RiskContext F → RiskConfig F → Checked
  unfolding check_quiet
  check_cooldown p x c =
      if c.cooldown_s ≤? lit 0 || is_empty x.recent_decisions
      then pass
      else check_quiet p.symbol c.cooldown_s
          (latest_age p.symbol x.server_time none x.recent_decisions)
