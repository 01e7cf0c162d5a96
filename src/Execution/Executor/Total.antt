-- ===== src/Execution/Executor/Total.antt =====
-- mt5_agent/execution/executor.py: `execute` answers with a record on every path.
use llm_mt5_agent.Prelude.{
  ◌≡◌, refl, String, true, false, not, ◌&&◌, Option, none, some, [], ◌∷◌, ◌++◌, ◌⊎◌, inl, inr,
  Bool-cases, is_none, str_eq_iff, arith,
}
use llm_mt5_agent.Python.Errors.{ok-raise, Exception, Result, ok, raise, is_os_error}
use llm_mt5_agent.Python.Float.{Float, Datetime}
use llm_mt5_agent.Domain.Planning.{TradeProposal, action_eq, hold}
use llm_mt5_agent.Domain.Execution.{
  ExecutionStatus, success, rejected, failed, unknown, dry_run, live, mode_eq, status_eq,
  OrderRequest, ExecutionRecord, new_execution_record,
}
use llm_mt5_agent.Risk.Supervisor.{SupervisorDecision}
use llm_mt5_agent.Execution.Session.{Session, Host}
use llm_mt5_agent.Execution.Records.{Executor, record_of, to_request}
use llm_mt5_agent.Execution.Live.{execute_live}
use llm_mt5_agent.Execution.Executor.{
  Ledger, find, Outcome, key_of, is_not_connected, handle, caught, simulated, run_request, run,
  remember, execute_key, execute,
}

-- A record, and not an exception.
abbrev pub Answers : {A : Type 0} → Result A → Type 0
Answers {A} r = (a : A) × (r ≡ ok a)

pub find-append :
    {F : Type 0} (ledger : Ledger F) (key : String) (r : ExecutionRecord F)
    → find ledger key ≡ none
    → find (ledger ++ ((key, r) ∷ [])) key ≡ some r
unfolding find
find-append [] key r h = rw ((str_eq_iff key key).1 refl) refl
find-append ((k, x) ∷ rest) key r h = ground (arith, find-append rest key r)

new_execution_record-Answers :
    {F : Type 0} (r : ExecutionRecord F)
    → (status_eq r.status success && not (mode_eq r.mode dry_run) && is_none r.ticket) ≡ false
    → Answers (new_execution_record r)
unfolding new_execution_record
new_execution_record-Answers r h = (r, rw h refl)

-- What a call answers and what it leaves in the ledger: the record of the key.
unfoldable pub Filed : {F W : Type 0} → Ledger F → String → Outcome F W → Type 0
Filed {F} ledger key out =
    (r : ExecutionRecord F) × (out.answer ≡ ok r)
    × (find out.ledger key ≡ some r)
    × ((out.ledger ≡ ledger)
        ⊎ ((find ledger key ≡ none) × (out.ledger ≡ ledger ++ ((key, r) ∷ []))))

module _ {F W : Type 0} ⦃fl : Float F⦄ (ex : Executor F W) where
  record_of-Answers :
      (id : String) (p : TradeProposal F) (st : ExecutionStatus) (message code : String)
      (price : Option F) (clock : Datetime)
      → status_eq st success ≡ false
      → Answers (record_of ex id p st message code price clock)
  unfolding record_of
  record_of-Answers id p st message code price clock h =
      new_execution_record-Answers _ (ground arith)

  handle-Answers :
      (id : String) (p : TradeProposal F) (clock : Datetime) (e : Exception)
      → Answers (handle ex id p clock e)
  unfolding handle
  handle-Answers id p clock e = elim (Bool-cases (is_not_connected e.class)) [
    | inl h ↦ rw h (record_of-Answers id p failed _ _ none clock refl)
    | inr h ↦ rw h (elim (Bool-cases (is_os_error e.class)) [
      | inl k ↦ rw k (record_of-Answers id p unknown _ _ none clock refl)
      | inr k ↦ rw k (record_of-Answers id p failed _ _ none clock refl)
    ])
  ]

  caught-Answers :
      (id : String) (p : TradeProposal F) (clock : Datetime)
      (x : Result (ExecutionRecord F) × Session F W)
      → Answers (caught ex id p clock x).0
  unfolding caught
  caught-Answers id p clock (ok r, s) = (r, refl)
  caught-Answers id p clock (raise e, s) = handle-Answers id p clock e

  simulated-Answers :
      (request : OrderRequest F) (id : String) (clock : Datetime)
      → mode_eq ex.mode dry_run ≡ true
      → Answers (simulated ex request id clock)
  unfolding simulated
  simulated-Answers request id clock h = new_execution_record-Answers _ (ground arith)

  run_request-Answers :
      (host : Host F W) (p : TradeProposal F) (id : String) (clock : Datetime)
      (request : Result (OrderRequest F)) (s : Session F W)
      → Answers (run_request ex host p id clock request s).0
  unfolding run_request
  run_request-Answers host p id clock (raise e) s =
      record_of-Answers id p rejected _ _ none clock refl
  run_request-Answers host p id clock (ok request) s = elim (Bool-cases (mode_eq ex.mode dry_run)) [
    | inl h ↦ rw h (simulated-Answers request id clock h)
    | inr h ↦ rw h (caught-Answers id p clock (execute_live ex host request p clock s))
  ]

  pub run-Answers :
      (host : Host F W) (d : SupervisorDecision F) (id : String) (clock : Datetime)
      (s : Session F W)
      → Answers (run ex host d id clock s).0
  unfolding run
  run-Answers host d id clock s = elim (Bool-cases d.approved) [
    | inr h ↦ rw h (record_of-Answers id d.proposal rejected _ _ none clock refl)
    | inl h ↦ rw h (elim (Bool-cases (action_eq d.proposal.action hold)) [
      | inl k ↦ rw k (record_of-Answers id d.proposal rejected _ _ none clock refl)
      | inr k ↦ rw k (elim (Bool-cases (mode_eq ex.mode live && not ex.allow_live)) [
        | inl l ↦ rw l (record_of-Answers id d.proposal rejected _ _ none clock refl)
        | inr l ↦
            rw l (run_request-Answers host d.proposal id clock (to_request ex d.proposal id) s)
      ])
    ])
  ]

  remember-Filed :
      (ledger : Ledger F) (key : String) (x : Result (ExecutionRecord F) × Session F W)
      → Answers x.0
      → find ledger key ≡ none
      → Filed ledger key (remember key ledger x)
  unfolding remember Filed
  remember-Filed ledger key (ok r, s) a h = (r, refl, find-append ledger key r h, inr (h, refl))
  remember-Filed ledger key (raise e, s) (r, a) h = absurd (ok-raise a)

  execute_key-Filed :
      (host : Host F W) (ledger : Ledger F) (d : SupervisorDecision F) (key : String)
      (clock : Datetime) (s : Session F W) (found : Option (ExecutionRecord F))
      → find ledger key ≡ found
      → Filed ledger key (execute_key ex host ledger d key clock s found)
  unfolding execute_key Filed
  execute_key-Filed host ledger d key clock s (some r) h = (r, refl, h, inl refl)
  execute_key-Filed host ledger d key clock s none h =
      remember-Filed ledger key (run ex host d key clock s) (run-Answers host d key clock s) h

  -- `execute` never raises: for every decision, key and state of the terminal, whatever the calls
  -- of the terminal answer or raise, it returns a record, which is the one that the ledger then
  -- holds under the key; the ledger is the old one, or the old one without the key and the new
  -- record at its end.
  pub execute-Filed :
      (host : Host F W) (ledger : Ledger F) (d : SupervisorDecision F) (client_id : Option String)
      (fresh : String) (clock : Datetime) (s : Session F W)
      → Filed ledger (key_of client_id fresh) (execute ex host ledger d client_id fresh clock s)
  unfolding execute
  execute-Filed host ledger d client_id fresh clock s =
      execute_key-Filed host ledger d (key_of client_id fresh) clock s
        (find ledger (key_of client_id fresh)) refl
