-- ===== src/Risk/Rules/Account.antt =====
-- mt5_agent/risk/rules.py: the checks of the account, of its exposure and of the risk taken.
use llm_mt5_agent.Prelude.{◌<>◌, str_ℕ, not, Option, none, some, map, leb, length, if◌then◌else◌}
use llm_mt5_agent.Python.Float.{Float, ◌<?◌, ◌≤?◌, lit, or_else}
use llm_mt5_agent.Domain.Planning.{TradeProposal}
use llm_mt5_agent.Domain.Trading.{margin_level}
use llm_mt5_agent.Risk.Config.{RiskConfig}
use llm_mt5_agent.Risk.Context.{RiskContext}
use llm_mt5_agent.Risk.Rules.Outcome.{
  account_safety, max_risk, daily_loss, max_positions, max_exposure, Checked, pass, fail,
}

module _ {F : Type 0} ⦃fl : Float F⦄ where
  -- The last test of the account, on its margin level.
  unfoldable pub check_margin_level : Option F → F → Checked
  check_margin_level none least = pass
  check_margin_level (some level) least =
      if level <? least
      then fail account_safety
          ("margin level " <> (fl.fixed 0 level <> ("% below min " <> (fl.str least <> "%"))))
      else pass

  unfoldable pub check_account_safety : RiskContext F → RiskConfig F → Checked
  unfolding check_margin_level
  check_account_safety x c =
      if not x.account.account.trade_allowed
      then fail account_safety "account trade is disabled"
      else if x.account.account.equity ≤? lit 0
      then fail account_safety "account equity is not positive"
      else check_margin_level (margin_level x.account) c.min_margin_level_pct

  unfoldable pub check_max_risk : TradeProposal F → RiskConfig F → Checked
  check_max_risk p c =
      if c.max_risk_pct_per_trade <? p.risk_pct
      then fail max_risk (
          "risk "
          <> (fl.str p.risk_pct <> ("% exceeds max " <> (fl.str c.max_risk_pct_per_trade <> "%"))))
      else pass

  -- `limit` of the daily loss rule
  unfoldable pub daily_loss_limit : RiskContext F → RiskConfig F → F
  daily_loss_limit x c = fl.div (fl.mul x.account.account.balance c.max_daily_loss_pct) (lit 100)

  -- The verdict on the P&L of the day against `limit`.
  unfoldable pub check_day_pnl : Option F → F → Checked
  check_day_pnl none limit = fail daily_loss "daily P&L is unavailable; fail closed"
  check_day_pnl (some pnl) limit =
      if pnl ≤? fl.neg limit
      then fail daily_loss
          ("day P&L " <> (fl.str pnl <> (" breached daily loss limit " <> fl.str limit)))
      else pass

  unfoldable pub check_daily_loss : RiskContext F → RiskConfig F → Checked
  unfolding check_day_pnl
  check_daily_loss x c = check_day_pnl x.day_pnl (daily_loss_limit x c)

  unfoldable pub check_max_positions : RiskContext F → RiskConfig F → Checked
  check_max_positions x c =
      if leb c.max_open_positions (length x.positions)
      then fail max_positions
          (str_ℕ (length x.positions) <> (" open positions >= max " <> str_ℕ c.max_open_positions))
      else pass

  -- `current + added` of the exposure rule
  unfoldable pub exposure : TradeProposal F → RiskContext F → F
  exposure p x = fl.add (fl.sum (map (λ q. q.volume) x.positions)) (or_else p.volume (lit 0))

  unfoldable pub check_max_exposure : TradeProposal F → RiskContext F → RiskConfig F → Checked
  check_max_exposure p x c =
      if c.max_exposure_volume <? exposure p x
      then fail max_exposure (
          "exposure "
          <> (fl.str (exposure p x) <> (" exceeds max " <> fl.str c.max_exposure_volume)))
      else pass
