-- ===== src/Execution/Live.antt =====
-- mt5_agent/execution/executor.py: `MT5TradeExecutor._execute_live`, statement by statement.
pub mod Orders
pub mod Sends
use llm_mt5_agent.Prelude.{
  Option, String, ℕ, ◌<>◌, Bool, true, false, not, ◌&&◌, none, some, ◌==◌, if◌then◌else◌,
}
use llm_mt5_agent.Python.Errors.{Exception, Result, ok, raise, mt5_not_connected_error, class_name}
use llm_mt5_agent.Python.Float.{Float, or_else, Datetime}
use llm_mt5_agent.Domain.Account.{AccountInfo}
use llm_mt5_agent.Domain.Planning.{buy, action_eq, TradeProposal}
use llm_mt5_agent.Domain.Execution.{
  demo, mode_eq, success, rejected, failed, OrderRequest, ExecutionRecord, new_execution_record,
}
use llm_mt5_agent.Execution.Reply.{
  trade_mode_real, nonzero, or_zero, retcode_text, comment_or, is_checked, accepted, payload,
}
use llm_mt5_agent.Execution.Records.{Executor, record_of}
use llm_mt5_agent.Execution.Session.{
  RawTick, TradeReply, Terminal, Connection, Host, load_mt5, Action, pure, lift, attempt, call,
  send, probe, ◌>>=◌,
}

abbrev pub not_connected : Exception
not_connected = record {
  class = mt5_not_connected_error;
  message = "Not connected. Call connect() first.";
}

module _ {F W : Type 0} where
  -- `self._require_module()`
  unfoldable pub require_module : Host F W → Action F W (Terminal F W)
  require_module host s = elim s.mt5 [
    | some mt5 ↦ (ok mt5, s)
    | none ↦ elim (load_mt5 host) [
      | ok mt5 ↦ (ok mt5, record s { mt5 = some mt5 })
      | raise e ↦ (raise e, s)
    ]
  ]

  -- `except Exception: return False`, else `bool(found)`
  abbrev pub found_or_false : Result Bool → Action F W Bool
  found_or_false (ok b) = pure b
  found_or_false (raise e) = pure false

  -- `self._verify(mt5, order_ticket)`
  unfoldable pub verify : Terminal F W → ℕ → Action F W Bool
  verify mt5 ticket =
      if ticket == 0
      then pure false
      else (attempt (call (mt5.has_positions ticket)) >>= found_or_false)

module _ {F W : Type 0} ⦃fl : Float F⦄ where
  -- What follows an accepted `order_send`.
  unfoldable pub filled :
      Executor F W
      → Terminal F W
      → OrderRequest F
      → F
      → TradeReply F
      → Datetime
      → Action F W (ExecutionRecord F)
  filled ex mt5 request price reply clock = do
    let executed = or_else reply.price price
    verified ← verify mt5 (or_zero reply.order)
    lift (
        new_execution_record (record {
          client_id = request.client_id;
          symbol = request.symbol;
          action = request.action;
          volume = request.volume;
          status = success;
          mode = ex.mode;
          ticket = nonzero reply.order;
          deal = nonzero reply.deal;
          executed_price = some executed;
          requested_price = some price;
          slippage = some (fl.sub executed price);
          error_code = "";
          message =
              if verified
              then "verified fill"
              else "fill assumed from retcode (position not yet visible)";
          decided_at = clock;
        }))

  -- The record after a reply of `order_check` or `order_send` that is not accepted; `what` is the
  -- head of the message.
  unfoldable pub refused :
      Executor F W
      → Terminal F W
      → OrderRequest F
      → TradeProposal F
      → F
      → Datetime
      → String
      → Option (TradeReply F)
      → Action F W (ExecutionRecord F)
  refused ex mt5 request p price clock what reply = do
    last ← call mt5.last_error
    lift (
        record_of ex request.client_id p failed (what <> comment_or reply last) (retcode_text reply)
          (some price) clock)

  -- `order_send(payload)`, once `order_check` has passed.
  unfoldable pub send_order :
      Executor F W
      → Terminal F W
      → OrderRequest F
      → TradeProposal F
      → F
      → Datetime
      → Action F W (ExecutionRecord F)
  send_order ex mt5 request p price clock = do
    result ← send mt5.order_send (payload mt5 request price)
    elim (accepted result) [
      | none ↦ refused ex mt5 request p price clock "order_send failed: " result
      | some reply ↦ filled ex mt5 request price reply clock
    ]

  -- The request is priced: `order_check`, then `order_send`.
  unfoldable pub submit :
      Executor F W
      → Terminal F W
      → OrderRequest F
      → TradeProposal F
      → F
      → Datetime
      → Action F W (ExecutionRecord F)
  submit ex mt5 request p price clock = do
    checked ← call (mt5.order_check (payload mt5 request price))
    if is_checked checked
        then send_order ex mt5 request p price clock
        else refused ex mt5 request p price clock "order_check failed: " checked

  -- What follows `symbol_info_tick(symbol)`.
  unfoldable pub on_tick :
      Executor F W
      → Terminal F W
      → OrderRequest F
      → TradeProposal F
      → Datetime
      → Option (RawTick F)
      → Action F W (ExecutionRecord F)
  on_tick ex mt5 request p clock none =
      lift
        (record_of ex request.client_id p failed ("no tick for " <> request.symbol) "" none clock)
  on_tick ex mt5 request p clock (some t) =
      submit ex mt5 request p (if action_eq request.action buy then t.ask else t.bid) clock

  -- The account is verified: the module, the tick and the price.
  unfoldable pub quote :
      Executor F W
      → Host F W
      → OrderRequest F
      → TradeProposal F
      → Datetime
      → Action F W (ExecutionRecord F)
  quote ex host request p clock = do
    mt5 ← require_module host
    tick ← call (mt5.symbol_info_tick request.symbol)
    on_tick ex mt5 request p clock tick

  -- What follows `get_account_info()`: its exception refuses, a real account refuses in DEMO mode.
  unfoldable pub on_account :
      Executor F W
      → Host F W
      → OrderRequest F
      → TradeProposal F
      → Datetime
      → Result (AccountInfo F)
      → Action F W (ExecutionRecord F)
  on_account ex host request p clock (raise e) = lift (
      record_of ex request.client_id p rejected
        ("account verification failed; fail closed: " <> class_name e.class) "" none clock)
  on_account ex host request p clock (ok account) =
      if mode_eq ex.mode demo && account.trade_mode == trade_mode_real
      then lift (
          record_of ex request.client_id p rejected "DEMO mode refused on a real account" "" none
            clock)
      else quote ex host request p clock

  -- `self._execute_live(request, proposal)` with a connection
  unfoldable pub execute_connected :
      Executor F W
      → Connection F W
      → Host F W
      → OrderRequest F
      → TradeProposal F
      → Datetime
      → Action F W (ExecutionRecord F)
  execute_connected ex connection host request p clock s =
      if not (connection.is_connected s.world)
      then (raise not_connected, s)
      else (attempt (probe connection.get_account_info) >>= on_account ex host request p clock) s

  -- `self._execute_live(request, proposal)`, by `self._connection`
  unfoldable pub with_connection :
      Executor F W
      → Host F W
      → OrderRequest F
      → TradeProposal F
      → Datetime
      → Option (Connection F W)
      → Action F W (ExecutionRecord F)
  with_connection ex host request p clock none = lift (
      record_of ex request.client_id p rejected
        "non-dry execution requires a verified MT5 connection" "" none clock)
  with_connection ex host request p clock (some connection) =
      execute_connected ex connection host request p clock

  unfoldable pub execute_live :
      Executor F W
      → Host F W
      → OrderRequest F
      → TradeProposal F
      → Datetime
      → Action F W (ExecutionRecord F)
  execute_live ex host request p clock = with_connection ex host request p clock ex.connection
