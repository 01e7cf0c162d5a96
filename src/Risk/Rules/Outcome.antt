-- ===== src/Risk/Rules/Outcome.antt =====
-- The rules of mt5_agent/risk/rules.py by name and code, and what their `check` returns.
use llm_mt5_agent.Prelude.{String, Option, none, some}
use llm_mt5_agent.Python.Errors.{Result, ok, ◌>>=◌}
use llm_mt5_agent.Risk.Verdict

pub data RiskRule : Type 0 where
  account_safety symbol_allowlist session max_risk daily_loss max_positions : RiskRule
  max_exposure spread stop_loss_required take_profit_required min_stop_distance : RiskRule
  duplicate cooldown : RiskRule

-- `rule.code`
unfoldable pub rule_code : RiskRule → Verdict.ViolationCode
rule_code account_safety = Verdict.account_unsafe
rule_code symbol_allowlist = Verdict.symbol_not_allowed
rule_code session = Verdict.session_closed
rule_code max_risk = Verdict.max_risk_exceeded
rule_code daily_loss = Verdict.max_daily_loss_exceeded
rule_code max_positions = Verdict.max_positions_exceeded
rule_code max_exposure = Verdict.max_exposure_exceeded
rule_code spread = Verdict.spread_too_high
rule_code stop_loss_required = Verdict.stop_loss_required
rule_code take_profit_required = Verdict.take_profit_required
rule_code min_stop_distance = Verdict.stop_too_close
rule_code duplicate = Verdict.duplicate_trade
rule_code cooldown = Verdict.cooldown_active

-- `rule.name`
unfoldable pub rule_name : RiskRule → String
rule_name account_safety = "account_safety"
rule_name symbol_allowlist = "symbol_allowlist"
rule_name session = "session"
rule_name max_risk = "max_risk"
rule_name daily_loss = "daily_loss"
rule_name max_positions = "max_positions"
rule_name max_exposure = "max_exposure"
rule_name spread = "spread"
rule_name stop_loss_required = "stop_loss_required"
rule_name take_profit_required = "take_profit_required"
rule_name min_stop_distance = "min_stop_distance"
rule_name duplicate = "duplicate"
rule_name cooldown = "cooldown"

-- What a check returns, or raises.
abbrev pub Checked : Type 0
Checked = Result (Option Verdict.Violation)

abbrev pub pass : Checked
pass = ok none

-- `self._fail(message)`
unfoldable pub fail : RiskRule → String → Checked
fail rule message = do
  v ←
      Verdict.new_violation
        (record { code = rule_code rule; message = message; rule = rule_name rule })
  ok (some v)
