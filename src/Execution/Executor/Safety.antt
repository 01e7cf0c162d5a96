-- ===== src/Execution/Executor/Safety.antt =====
-- mt5_agent/execution/executor.py: when `execute` hands an order to the terminal.
use llm_mt5_agent.Prelude.{
  if-cases, not-eq-false, ◌≡◌, refl, String, false, not, ◌&&◌, Option, none, some, ◌⊎◌, inl, inr,
}
use llm_mt5_agent.Python.Errors.{Result, ok, raise}
use llm_mt5_agent.Python.Float.{Float, Datetime}
use llm_mt5_agent.Domain.Planning.{action_eq, hold}
use llm_mt5_agent.Domain.Execution.{
  success, rejected, dry_run, live, mode_eq, status_eq, ExecutionRecord,
}
use llm_mt5_agent.Risk.Supervisor.{SupervisorDecision}
use llm_mt5_agent.Execution.Session.{Session, Host}
use llm_mt5_agent.Execution.Records.{Executor, record_of, to_request}
use llm_mt5_agent.Execution.Executor.{
  Ledger, find, Outcome, key_of, run, remember, execute_key, execute,
}
use llm_mt5_agent.Execution.Executor.Requests.{
  Unfilled, Unrefused, Placed, Allowed, record_of-Says, RequestEnds, run_request-Ends,
}

module _ {F W : Type 0} ⦃fl : Float F⦄ (ex : Executor F W) (host : Host F W) where
  -- What one call does to the terminal and says of it: no order is sent and no record says that one
  -- was filled; or the key is new, the decision allows an order, one was sent, and no record says
  -- that it was refused.
  unfoldable pub Effect :
      Ledger F → SupervisorDecision F → String → Session F W → Outcome F W → Type 0
  Effect ledger d key s out =
      ((out.session.sent ≡ s.sent) × ((find ledger key ≡ none) → Unfilled ex host out.answer))
      ⊎ ((find ledger key ≡ none)
          × Allowed ex host d
          × Placed ex host d.proposal key s out.session
          × Unrefused ex host out.answer)

  remember-unsent :
      (ledger : Ledger F) (d : SupervisorDecision F) (key : String) (s : Session F W)
      (x : Result (ExecutionRecord F) × Session F W)
      → x.1.sent ≡ s.sent
      → Unfilled ex host x.0
      → Effect ledger d key s (remember key ledger x)
  unfolding remember Effect
  remember-unsent ledger d key s (ok r, s') e u = inl (e, λ _. u)
  remember-unsent ledger d key s (raise x, s') e u = inl (e, λ _. u)

  remember-Effect :
      (ledger : Ledger F) (d : SupervisorDecision F) (key : String) (s : Session F W)
      (x : Result (ExecutionRecord F) × Session F W)
      → find ledger key ≡ none
      → Allowed ex host d
      → RequestEnds ex host d.proposal key s x
      → Effect ledger d key s (remember key ledger x)
  unfolding remember Effect RequestEnds
  remember-Effect ledger d key s x h a (inl (e, u)) = remember-unsent ledger d key s x e u
  remember-Effect ledger d key s (ok r, s') h a (inr (p, u)) = inr (h, a, p, u)
  remember-Effect ledger d key s (raise x, s') h a (inr (p, u)) = inr (h, a, p, u)

  refused-Effect :
      (ledger : Ledger F) (d : SupervisorDecision F) (key message : String) (clock : Datetime)
      (s : Session F W)
      → Effect ledger d key s
          (remember key ledger (record_of ex key d.proposal rejected message "" none clock, s))
  refused-Effect ledger d key message clock s = remember-unsent ledger d key s _ refl (
      record_of-Says ex host (λ st. (status_eq st success && not (mode_eq ex.mode dry_run)) ≡ false)
        key d.proposal rejected message _ none clock refl)

  run-Effect :
      (ledger : Ledger F) (d : SupervisorDecision F) (key : String) (clock : Datetime)
      (s : Session F W)
      → find ledger key ≡ none
      → Effect ledger d key s (remember key ledger (run ex host d key clock s))
  unfolding run
  run-Effect ledger d key clock s h =
      if-cases (not d.approved) (λ x. Effect ledger d key s (remember key ledger x))
        (λ _. refused-Effect ledger d key _ clock s)
        (λ a.
          if-cases (action_eq d.proposal.action hold)
            (λ x. Effect ledger d key s (remember key ledger x))
            (λ _. refused-Effect ledger d key _ clock s)
            (λ k.
              if-cases (mode_eq ex.mode live && not ex.allow_live)
                (λ x. Effect ledger d key s (remember key ledger x))
                (λ _. refused-Effect ledger d key _ clock s)
                (λ l.
                  remember-Effect ledger d key s _ h
                    (record {
                      approved = not-eq-false d.approved a;
                      directional = k;
                      live_allowed = l;
                    })
                    (run_request-Ends ex host d key clock (to_request ex d.proposal key) s refl))))

  replayed-Effect :
      (ledger : Ledger F) (d : SupervisorDecision F) (key : String) (s : Session F W)
      (r : ExecutionRecord F)
      → find ledger key ≡ some r
      → Effect ledger d key s (record { answer = ok r; ledger = ledger; session = s })
  unfolding Effect
  replayed-Effect ledger d key s r h = inl (refl, λ n. cc)

  execute_key-Effect :
      (ledger : Ledger F) (d : SupervisorDecision F) (key : String) (clock : Datetime)
      (s : Session F W) (found : Option (ExecutionRecord F))
      → find ledger key ≡ found
      → Effect ledger d key s (execute_key ex host ledger d key clock s found)
  unfolding execute_key
  execute_key-Effect ledger d key clock s none h = run-Effect ledger d key clock s h
  execute_key-Effect ledger d key clock s (some r) h = replayed-Effect ledger d key s r h

  -- A call of `execute` sends at most one order. It sends one only if its key is new, the decision is
  -- approved and directional, the mode is not DRY_RUN and LIVE is allowed, the connection is
  -- connected and its account known and not real in DEMO mode, and the module that is loaded, or else
  -- the one that the host loads, then answered a tick, whose ask or bid is the price, and after it
  -- DONE to `order_check` for the very payload that is then sent, which is the request of the
  -- proposal; the record, if the call returns one, is then not REJECTED. If it sends none under a new
  -- key, no record says SUCCESS but that of a dry run.
  pub execute-Effect :
      (ledger : Ledger F) (d : SupervisorDecision F) (client_id : Option String) (fresh : String)
      (clock : Datetime) (s : Session F W)
      → Effect ledger d
          (key_of client_id fresh)
          s
          (execute ex host ledger d client_id fresh clock s)
  unfolding execute
  execute-Effect ledger d client_id fresh clock s =
      execute_key-Effect ledger d (key_of client_id fresh) clock s
        (find ledger (key_of client_id fresh)) refl
