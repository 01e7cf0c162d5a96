-- ===== src/Risk/Rules/Market.antt =====
-- mt5_agent/risk/rules.py: the checks of symbol, session, spread and protective prices.
use llm_mt5_agent.Prelude.{
  String, ◌<>◌, str_eq, str_ℕ, not, Option, none, some, List, ◌&&◌, is_none, any, if◌then◌else◌,
}
use llm_mt5_agent.Python.Float.{Float, ◌<?◌, ◌≤?◌, lit, or_else, hour_of}
use llm_mt5_agent.Domain.Planning.{TradeProposal}
use llm_mt5_agent.Risk.Config.{contains, RiskConfig}
use llm_mt5_agent.Risk.Context.{RiskContext, get}
use llm_mt5_agent.Risk.Rules.Outcome.{
  symbol_allowlist, session, spread, stop_loss_required, take_profit_required, min_stop_distance,
  Checked, pass, fail,
}

-- The builtin `repr` quotes the symbol.
unfoldable pub check_allowed : (String → String) → String → Option (List String) → Checked
check_allowed repr symbol none = pass
check_allowed repr symbol (some symbols) =
    if not (any (str_eq symbol) symbols)
    then fail symbol_allowlist ("symbol " <> (repr symbol <> " not in allowlist"))
    else pass

module _ {F : Type 0} ⦃fl : Float F⦄ where
  unfoldable pub check_symbol_allowlist :
      (String → String) → TradeProposal F → RiskConfig F → Checked
  unfolding check_allowed
  check_symbol_allowlist repr p c = check_allowed repr p.symbol c.allowed_symbols

  unfoldable pub check_session : RiskContext F → RiskConfig F → Checked
  check_session x c =
      let hour = hour_of x.server_time in
      if any (λ s. contains s hour) c.allowed_sessions
      then pass
      else fail session ("hour " <> (str_ℕ hour <> " outside allowed sessions"))

  -- The spread of the symbol, if it is known, against the most that is set, if any.
  unfoldable pub check_spread_within : Option F → Option F → Checked
  check_spread_within none points = pass
  check_spread_within (some most) none = fail spread "spread is unavailable; fail closed"
  check_spread_within (some most) (some points) =
      if most <? points
      then fail spread
          ("spread " <> (fl.str points <> ("pt exceeds max " <> (fl.str most <> "pt"))))
      else pass

  unfoldable pub check_spread : TradeProposal F → RiskContext F → RiskConfig F → Checked
  unfolding check_spread_within
  check_spread p x c = check_spread_within c.max_spread_points (get x.spreads_points p.symbol)

  unfoldable pub check_stop_loss_required : TradeProposal F → RiskConfig F → Checked
  check_stop_loss_required p c =
      if c.require_stop_loss && is_none p.stop_loss
      then fail stop_loss_required "stop loss is mandatory"
      else pass

  unfoldable pub check_take_profit_required : TradeProposal F → RiskConfig F → Checked
  check_take_profit_required p c =
      if c.require_take_profit && is_none p.take_profit
      then fail take_profit_required "take profit is mandatory"
      else pass

  -- The stop distance in points, once both prices are known.
  unfoldable pub check_distance : F → F → Option F → Option F → Checked
  check_distance least point (some entry) (some stop) =
      let distance = fl.div (fl.abs (fl.sub entry stop)) point in
      if point ≤? lit 0
      then fail min_stop_distance "symbol point size is unavailable; fail closed"
      else if distance <? least
      then fail min_stop_distance
          ("stop distance " <> (fl.fixed 1 distance <> ("pt below min " <> (fl.str least <> "pt"))))
      else pass
  check_distance least point _ _ = pass

  unfoldable pub check_min_stop_distance : TradeProposal F → RiskContext F → RiskConfig F → Checked
  unfolding check_distance
  check_min_stop_distance p x c =
      if c.min_stop_points ≤? lit 0
      then pass
      else check_distance c.min_stop_points (or_else (get x.symbol_points p.symbol) (lit 0)) p.entry
          p.stop_loss
