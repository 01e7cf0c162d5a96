-- ===== src/Domain/Execution.antt =====
-- mt5_agent/domain/execution.py
use llm_mt5_agent.Prelude.{ℕ, String, is_blank, Bool, true, false, not, Option, ◌&&◌, is_none}
use llm_mt5_agent.Python.Errors.{Result, ok, raise_if, ◌>>◌}
use llm_mt5_agent.Python.Float.{Float, ◌≤?◌, lit, Datetime}
use llm_mt5_agent.Domain.Planning.{TradeAction, hold, action_eq}

pub data ExecutionMode : Type 0 where
  dry_run demo live : ExecutionMode

abbrev pub mode_eq : ExecutionMode → ExecutionMode → Bool
mode_eq dry_run dry_run = true
mode_eq demo demo = true
mode_eq live live = true
mode_eq _ _ = false

pub data ExecutionStatus : Type 0 where
  success rejected failed unknown : ExecutionStatus

abbrev pub status_eq : ExecutionStatus → ExecutionStatus → Bool
status_eq success success = true
status_eq rejected rejected = true
status_eq failed failed = true
status_eq unknown unknown = true
status_eq _ _ = false

-- `status.value`
unfoldable pub execution_status_value : ExecutionStatus → String
execution_status_value success = "SUCCESS"
execution_status_value rejected = "REJECTED"
execution_status_value failed = "FAILED"
execution_status_value unknown = "UNKNOWN"

pub record OrderRequest (F : Type 0) : Type 0 where
  pub symbol : String
  pub action : TradeAction
  pub volume : F
  pub stop_loss : F
  pub take_profit : F
  pub magic : ℕ
  pub deviation : ℕ
  pub client_id : String

pub record ExecutionRecord (F : Type 0) : Type 0 where
  pub client_id : String
  pub symbol : String
  pub action : TradeAction
  pub volume : F
  pub status : ExecutionStatus
  pub mode : ExecutionMode
  pub ticket : Option ℕ
  pub deal : Option ℕ
  pub executed_price : Option F
  pub requested_price : Option F
  pub slippage : Option F
  pub error_code : String
  pub message : String
  pub decided_at : Datetime

unfoldable pub new_execution_record : {F : Type 0} → ExecutionRecord F → Result (ExecutionRecord F)
new_execution_record r = do
  raise_if (status_eq r.status success && not (mode_eq r.mode dry_run) && is_none r.ticket)
      "non-dry-run SUCCESS records require a ticket"
  ok r

module _ {F : Type 0} ⦃fl : Float F⦄ where
  unfoldable pub new_order_request : OrderRequest F → Result (OrderRequest F)
  new_order_request r = do
    raise_if (action_eq r.action hold) "execution requires BUY or SELL"
    raise_if (is_blank r.symbol) "symbol must be non-empty"
    raise_if (r.volume ≤? lit 0) "volume must be positive"
    raise_if (is_blank r.client_id) "client_id must be non-empty"
    ok r
