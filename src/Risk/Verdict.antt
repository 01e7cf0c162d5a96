-- ===== src/Risk/Verdict.antt =====
-- mt5_agent/risk/result.py
use llm_mt5_agent.Prelude.{String, is_blank, Bool, not, List, map, ◌&&◌, is_empty}
use llm_mt5_agent.Python.Errors.{Result, ok, raise_if, ◌>>◌}
use llm_mt5_agent.Python.Float.{Datetime}

pub data ViolationCode : Type 0 where
  max_risk_exceeded max_daily_loss_exceeded max_positions_exceeded : ViolationCode
  max_exposure_exceeded symbol_not_allowed session_closed spread_too_high : ViolationCode
  stop_loss_required take_profit_required stop_too_close duplicate_trade : ViolationCode
  cooldown_active account_unsafe : ViolationCode

-- `code.value`
unfoldable pub code_value : ViolationCode → String
code_value max_risk_exceeded = "MAX_RISK_EXCEEDED"
code_value max_daily_loss_exceeded = "MAX_DAILY_LOSS_EXCEEDED"
code_value max_positions_exceeded = "MAX_POSITIONS_EXCEEDED"
code_value max_exposure_exceeded = "MAX_EXPOSURE_EXCEEDED"
code_value symbol_not_allowed = "SYMBOL_NOT_ALLOWED"
code_value session_closed = "SESSION_CLOSED"
code_value spread_too_high = "SPREAD_TOO_HIGH"
code_value stop_loss_required = "STOP_LOSS_REQUIRED"
code_value take_profit_required = "TAKE_PROFIT_REQUIRED"
code_value stop_too_close = "STOP_TOO_CLOSE"
code_value duplicate_trade = "DUPLICATE_TRADE"
code_value cooldown_active = "COOLDOWN_ACTIVE"
code_value account_unsafe = "ACCOUNT_UNSAFE"

pub record Violation : Type 0 where
  pub code : ViolationCode
  pub message : String
  pub rule : String

unfoldable pub new_violation : Violation → Result Violation
new_violation v = do raise_if (is_blank v.message) "message must be non-empty"; ok v

pub record ValidationResult : Type 0 where
  pub approved : Bool
  pub violations : List Violation
  pub checked_at : Datetime

unfoldable pub new_validation_result : ValidationResult → Result ValidationResult
new_validation_result r = do
  raise_if (r.approved && not (is_empty r.violations)) "approved results carry no violations"
  raise_if (not r.approved && is_empty r.violations) "rejections require at least one violation"
  ok r

-- `result.codes`
unfoldable pub codes : ValidationResult → List ViolationCode
codes r = map (λ v. v.code) r.violations
