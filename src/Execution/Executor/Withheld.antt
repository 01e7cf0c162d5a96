-- ===== src/Execution/Executor/Withheld.antt =====
-- mt5_agent/execution/executor.py: the decisions that never reach the terminal, and the fill
-- without a ticket.
use llm_mt5_agent.Prelude.{
  ℕ, ◌∙◌, ◌≡◌, refl, String, Bool, true, false, not, ◌&&◌, ◌||◌, Option, none, some, [], ◌∷◌, ◌++◌,
  if-cases, arith,
}
use llm_mt5_agent.Python.Errors.{class_name, Exception, Result, ok, raise, value_error}
use llm_mt5_agent.Python.Float.{Float, Datetime}
use llm_mt5_agent.Domain.Planning.{TradeProposal, action_eq, hold}
use llm_mt5_agent.Domain.Execution.{
  failed, dry_run, live, mode_eq, OrderRequest, ExecutionRecord, new_execution_record,
}
use llm_mt5_agent.Risk.Supervisor.{SupervisorDecision}
use llm_mt5_agent.Execution.Session.{Session, Host, Terminal, TradeReply, ◌>>=◌, send}
use llm_mt5_agent.Execution.Reply.{accepted, payload, nonzero, or_zero}
use llm_mt5_agent.Execution.Records.{Executor, record_of, to_request}
use llm_mt5_agent.Execution.Live.Orders.{bind-ok}
use llm_mt5_agent.Execution.Live.{send_order, filled, verify}
use llm_mt5_agent.Execution.Executor.{
  Ledger, find, key_of, handle, caught, run_request, run, remember, execute_key, execute,
}

-- What `ExecutionRecord` raises on a fill without a ticket.
abbrev pub no_ticket : Exception
no_ticket = record { class = value_error; message = "non-dry-run SUCCESS records require a ticket" }

or_zero-none : (o : Option ℕ) → nonzero o ≡ none → or_zero o ≡ 0
or_zero-none o h = ground arith

module _ {F W : Type 0} ⦃fl : Float F⦄ (ex : Executor F W) where
  -- The supervisor refused, the action is HOLD, LIVE is not allowed, or the mode is DRY_RUN.
  unfoldable pub withheld : SupervisorDecision F → Bool
  withheld d =
      not d.approved
      || action_eq d.proposal.action hold
      || mode_eq ex.mode live && not ex.allow_live
      || mode_eq ex.mode dry_run

  run_request-dry :
      (host : Host F W) (p : TradeProposal F) (key : String) (clock : Datetime)
      (request : Result (OrderRequest F)) (s : Session F W)
      → mode_eq ex.mode dry_run ≡ true
      → (run_request ex host p key clock request s).1 ≡ s
  unfolding run_request
  run_request-dry host p key clock (raise e) s h = refl
  run_request-dry host p key clock (ok request) s h = simp h refl

  run-untouched :
      (host : Host F W) (d : SupervisorDecision F) (key : String) (clock : Datetime)
      (s : Session F W)
      → withheld d ≡ true
      → (run ex host d key clock s).1 ≡ s
  unfolding run withheld
  run-untouched host d key clock s h =
      if-cases (not d.approved) (λ (x : Result (ExecutionRecord F) × Session F W). x.1 ≡ s)
        (λ _. refl)
        (λ a.
          if-cases (action_eq d.proposal.action hold)
            (λ (x : Result (ExecutionRecord F) × Session F W). x.1 ≡ s) (λ _. refl)
            (λ k.
              if-cases (mode_eq ex.mode live && not ex.allow_live)
                (λ (x : Result (ExecutionRecord F) × Session F W). x.1 ≡ s) (λ _. refl)
                (λ l.
                  run_request-dry host d.proposal key clock (to_request ex d.proposal key) s
                    (ground arith))))

  remember-session :
      (key : String) (ledger : Ledger F) (x : Result (ExecutionRecord F) × Session F W)
      → (remember key ledger x).session ≡ x.1
  unfolding remember
  remember-session key ledger (ok r, s) = refl
  remember-session key ledger (raise e, s) = refl

  execute_key-untouched :
      (host : Host F W) (ledger : Ledger F) (d : SupervisorDecision F) (key : String)
      (clock : Datetime) (s : Session F W) (found : Option (ExecutionRecord F))
      → withheld d ≡ true
      → (execute_key ex host ledger d key clock s found).session ≡ s
  unfolding execute_key
  execute_key-untouched host ledger d key clock s (some r) h = refl
  execute_key-untouched host ledger d key clock s none h =
      remember-session key ledger (run ex host d key clock s) ∙ run-untouched host d key clock s h

  -- A decision that the supervisor refused, a HOLD, any decision in LIVE mode without `allow_live` and
  -- any decision in DRY_RUN mode leave the session as it is: no call of the connection or of the
  -- terminal is made and no module is loaded.
  pub execute-untouched :
      (host : Host F W) (ledger : Ledger F) (d : SupervisorDecision F) (client_id : Option String)
      (fresh : String) (clock : Datetime) (s : Session F W)
      → withheld d ≡ true
      → (execute ex host ledger d client_id fresh clock s).session ≡ s
  unfolding execute
  execute-untouched host ledger d client_id fresh clock s h =
      execute_key-untouched host ledger d (key_of client_id fresh) clock s
        (find ledger (key_of client_id fresh)) h

  filled-ticketless :
      (mt5 : Terminal F W) (request : OrderRequest F) (p : TradeProposal F) (price : F)
      (reply : TradeReply F) (clock : Datetime) (s : Session F W)
      → mode_eq ex.mode dry_run ≡ false
      → nonzero reply.order ≡ none
      → filled ex mt5 request price reply clock s ≡ (raise no_ticket, s)
  unfolding filled verify new_execution_record ◌>>=◌
  filled-ticketless mt5 request p price reply clock s nd h =
      simp (or_zero-none reply.order h, h, nd) refl

  send_order-raises :
      (mt5 : Terminal F W) (request : OrderRequest F) (p : TradeProposal F) (price : F)
      (reply : TradeReply F) (clock : Datetime) (s : Session F W)
      → mode_eq ex.mode dry_run ≡ false
      → (mt5.order_send (payload mt5 request price) s.world).0 ≡ ok (some reply)
      → accepted (some reply) ≡ some reply
      → nonzero reply.order ≡ none
      → send_order ex mt5 request p price clock s
        ≡ (raise no_ticket, (send mt5.order_send (payload mt5 request price) s).1)
  unfolding send_order
  send_order-raises mt5 request p price reply clock s nd h acc tick =
      bind-ok (send mt5.order_send (payload mt5 request price)) _ s (some reply) h
      ∙ rw acc (filled-ticketless mt5 request p price reply clock _ nd tick)

  -- Where the terminal accepts an order but its reply carries no order number (none, or 0), the
  -- order is sent and the caller gets a FAILED record, that of a `ValueError`, in DEMO and LIVE mode.
  pub send_order-ticketless :
      (mt5 : Terminal F W) (request : OrderRequest F) (p : TradeProposal F) (price : F)
      (reply : TradeReply F) (clock : Datetime) (s : Session F W)
      → mode_eq ex.mode dry_run ≡ false
      → (mt5.order_send (payload mt5 request price) s.world).0 ≡ ok (some reply)
      → accepted (some reply) ≡ some reply
      → nonzero reply.order ≡ none
      → let x = caught ex request.client_id p clock (send_order ex mt5 request p price clock s) in
        (x.0
          ≡ record_of ex request.client_id p failed
              "ValueError: non-dry-run SUCCESS records require a ticket" "" none clock)
        × (x.1.sent ≡ s.sent ++ (payload mt5 request price ∷ []))
  unfolding caught handle class_name
  send_order-ticketless mt5 request p price reply clock s nd h acc tick =
      rw (send_order-raises mt5 request p price reply clock s nd h acc tick) (refl, refl)
