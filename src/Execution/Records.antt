-- ===== src/Execution/Records.antt =====
-- mt5_agent/execution/executor.py: the settings of `MT5TradeExecutor`, its records and requests.
use llm_mt5_agent.Prelude.{ℕ, String, str_eq, join, Bool, Option, none, List, if◌then◌else◌}
use llm_mt5_agent.Python.Errors.{ok, raise_if, ◌>>◌, Result}
use llm_mt5_agent.Python.Float.{◌≤?◌, Float, lit, or_else, Datetime}
use llm_mt5_agent.Domain.Planning.{TradeProposal}
use llm_mt5_agent.Domain.Execution.{
  ExecutionMode, ExecutionStatus, OrderRequest, new_order_request, ExecutionRecord,
  new_execution_record,
}
use llm_mt5_agent.Execution.Session.{Connection}

-- The settings of the object. The ledger and the module, which change, are passed beside them.
pub record Executor (F W : Type 0) : Type 0 where
  pub mode : ExecutionMode
  pub allow_live : Bool
  pub connection : Option (Connection F W)
  pub default_volume : F
  pub magic : ℕ
  pub deviation : ℕ

-- `','.join(decision.codes) or 'unknown'`
unfoldable pub codes_or_unknown : List String → String
codes_or_unknown codes = let text = join "," codes in if str_eq text "" then "unknown" else text

module _ {F W : Type 0} ⦃fl : Float F⦄ where
  -- `self._record(client_id, proposal, status, message, ...)`, where the constructor may raise
  unfoldable pub record_of :
      Executor F W
      → String
      → TradeProposal F
      → ExecutionStatus
      → String
      → String
      → Option F
      → Datetime
      → Result (ExecutionRecord F)
  record_of ex client_id p status message error_code requested clock =
      new_execution_record (record {
        client_id = client_id;
        symbol = p.symbol;
        action = p.action;
        volume = or_else p.volume ex.default_volume;
        status = status;
        mode = ex.mode;
        ticket = none;
        deal = none;
        executed_price = none;
        requested_price = requested;
        slippage = none;
        error_code = error_code;
        message = message;
        decided_at = clock;
      })

  -- `self._to_request(proposal, client_id)`
  unfoldable pub to_request : Executor F W → TradeProposal F → String → Result (OrderRequest F)
  to_request ex p client_id = new_order_request (record {
    symbol = p.symbol;
    action = p.action;
    volume = or_else p.volume ex.default_volume;
    stop_loss = or_else p.stop_loss (lit 0);
    take_profit = or_else p.take_profit (lit 0);
    magic = ex.magic;
    deviation = ex.deviation;
    client_id = client_id;
  })

  -- `MT5TradeExecutor(...)`
  unfoldable pub new_executor : Executor F W → Result (Executor F W)
  new_executor ex = do
    raise_if (ex.default_volume ≤? lit 0) "default_volume must be positive"
    ok ex
