-- ===== src/Execution/Executor.antt =====
-- mt5_agent/execution/executor.py: `MT5TradeExecutor.execute` and `_run`, with the ledger.
pub mod Total
pub mod Replay
pub mod Requests
pub mod Safety
pub mod Withheld
use llm_mt5_agent.Prelude.{
  Bool, true, false, String, ◌<>◌, str_eq, not, ◌&&◌, Option, none, some, List, [], ◌∷◌, ◌++◌,
  if◌then◌else◌,
}
use llm_mt5_agent.Python.Errors.{
  Exception, ExceptionClass, class_name, is_os_error, mt5_not_connected_error, Exception, Result,
  ok, raise, mt5_not_connected_error, class_name, is_os_error,
}
use llm_mt5_agent.Python.Float.{Float, Datetime}
use llm_mt5_agent.Domain.Planning.{hold, action_eq, TradeProposal}
use llm_mt5_agent.Domain.Execution.{
  dry_run, live, mode_eq, success, rejected, failed, unknown, OrderRequest, ExecutionRecord,
  new_execution_record,
}
use llm_mt5_agent.Risk.Supervisor.{SupervisorDecision, decision_codes}
use llm_mt5_agent.Execution.Records.{Executor, codes_or_unknown, record_of, to_request}
use llm_mt5_agent.Execution.Live.{execute_live}
use llm_mt5_agent.Execution.Session.{Session, Host}

abbrev pub Ledger : Type 0 → Type 0
Ledger F = List (String × ExecutionRecord F)

unfoldable pub find : {F : Type 0} → Ledger F → String → Option (ExecutionRecord F)
find [] key = none
find ((k, r) ∷ rest) key = if str_eq k key then some r else find rest key

-- What `execute` leaves: the record or the exception, the ledger and the session.
pub record Outcome (F W : Type 0) : Type 0 where
  pub answer : Result (ExecutionRecord F)
  pub ledger : Ledger F
  pub session : Session F W

-- `client_id or _new_id()`, where `fresh` is the new id
unfoldable pub key_of : Option String → String → String
key_of none fresh = fresh
key_of (some id) fresh = if str_eq id "" then fresh else id

-- `isinstance(exc, MT5NotConnectedError)`
abbrev pub is_not_connected : ExceptionClass → Bool
is_not_connected mt5_not_connected_error = true
is_not_connected _ = false

module _ {F W : Type 0} ⦃fl : Float F⦄ where
  -- The `except` clauses round `_execute_live`.
  unfoldable pub handle :
      Executor F W → String → TradeProposal F → Datetime → Exception → Result (ExecutionRecord F)
  handle ex client_id p clock e =
      if is_not_connected e.class
      then record_of ex client_id p failed
          (e.message
            <> " Reconnect, re-verify account/positions/orders, then retry with the same client_id.")
          "" none clock
      else if is_os_error e.class
      then record_of ex client_id p unknown
          ("ambiguous result after "
            <> (class_name e.class
                <> (": "
                    <> (e.message
                        <> ". Verify positions/orders before retrying with the same client_id."))))
          "" none clock
      else record_of ex client_id p failed (class_name e.class <> (": " <> e.message)) "" none clock

  -- `try: return self._execute_live(...)` with its handlers
  unfoldable pub caught :
      Executor F W
      → String
      → TradeProposal F
      → Datetime
      → Result (ExecutionRecord F) × Session F W
      → Result (ExecutionRecord F) × Session F W
  caught ex client_id p clock (ok r, s) = (ok r, s)
  caught ex client_id p clock (raise e, s) = (handle ex client_id p clock e, s)

  -- The record of a DRY_RUN.
  unfoldable pub simulated :
      Executor F W → OrderRequest F → String → Datetime → Result (ExecutionRecord F)
  simulated ex request client_id clock = new_execution_record (record {
    client_id = client_id;
    symbol = request.symbol;
    action = request.action;
    volume = request.volume;
    status = success;
    mode = ex.mode;
    ticket = none;
    deal = none;
    executed_price = none;
    requested_price = none;
    slippage = none;
    error_code = "";
    message = "DRY_RUN simulated fill (no terminal calls)";
    decided_at = clock;
  })

  -- `_run` from `_to_request` on, whose only exceptions are `ValueError`s.
  unfoldable pub run_request :
      Executor F W
      → Host F W
      → TradeProposal F
      → String
      → Datetime
      → Result (OrderRequest F)
      → Session F W
      → Result (ExecutionRecord F) × Session F W
  run_request ex host p client_id clock (raise e) s =
      (record_of ex client_id p rejected e.message "" none clock, s)
  run_request ex host p client_id clock (ok request) s =
      if mode_eq ex.mode dry_run
      then (simulated ex request client_id clock, s)
      else caught ex client_id p clock (execute_live ex host request p clock s)

  -- `self._run(decision, client_id)`
  unfoldable pub run :
      Executor F W
      → Host F W
      → SupervisorDecision F
      → String
      → Datetime
      → Session F W
      → Result (ExecutionRecord F) × Session F W
  run ex host d client_id clock s =
      let p = d.proposal in
      if not d.approved
      then (
        record_of ex client_id p rejected
            ("supervisor rejected: " <> codes_or_unknown (decision_codes d)) "" none clock,
        s,
      )
      else if action_eq p.action hold
      then (record_of ex client_id p rejected "HOLD is not executable" "" none clock, s)
      else if mode_eq ex.mode live && not ex.allow_live
      then (
        record_of ex client_id p rejected "live trading disabled (allow_live=False)" "" none clock,
        s,
      )
      else run_request ex host p client_id clock (to_request ex p client_id) s

  -- `self._ledger[key] = record; return record`, unless `_run` raised
  unfoldable pub remember :
      String → Ledger F → Result (ExecutionRecord F) × Session F W → Outcome F W
  remember key ledger (ok r, s) = record {
    answer = ok r;
    ledger = ledger ++ ((key, r) ∷ []);
    session = s;
  }
  remember key ledger (raise e, s) = record { answer = raise e; ledger = ledger; session = s }

  -- `execute` from `key in self._ledger` on
  unfoldable pub execute_key :
      Executor F W
      → Host F W
      → Ledger F
      → SupervisorDecision F
      → String
      → Datetime
      → Session F W
      → Option (ExecutionRecord F)
      → Outcome F W
  execute_key ex host ledger d key clock s (some r) = record {
    answer = ok r;
    ledger = ledger;
    session = s;
  }
  execute_key ex host ledger d key clock s none = remember key ledger (run ex host d key clock s)

  unfoldable pub execute :
      Executor F W
      → Host F W
      → Ledger F
      → SupervisorDecision F
      → Option String
      → String
      → Datetime
      → Session F W
      → Outcome F W
  execute ex host ledger d client_id fresh clock s =
      let key = key_of client_id fresh in execute_key ex host ledger d key clock s (find ledger key)
