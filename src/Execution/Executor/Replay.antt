-- ===== src/Execution/Executor/Replay.antt =====
-- mt5_agent/execution/executor.py: the ledger over a sequence of calls of `execute`.
use llm_mt5_agent.Prelude.{
  ◌≡◌, refl, ◌∙◌, ap, String, Option, some, List, [], ◌∷◌, ◌++◌, inl, inr, arith,
}
use llm_mt5_agent.Python.Errors.{ok}
use llm_mt5_agent.Python.Float.{Float, Datetime}
use llm_mt5_agent.Domain.Execution.{ExecutionRecord}
use llm_mt5_agent.Risk.Supervisor.{SupervisorDecision}
use llm_mt5_agent.Execution.Session.{Session, Host}
use llm_mt5_agent.Execution.Records.{Executor}
use llm_mt5_agent.Execution.Executor.{Ledger, find, Outcome, key_of, execute_key, execute}
use llm_mt5_agent.Execution.Executor.Total.{Filed, execute-Filed}

-- The arguments of one call.
pub record Call (F : Type 0) : Type 0 where
  pub decision : SupervisorDecision F
  pub client_id : Option String
  pub fresh : String
  pub clock : Datetime

abbrev pub key : {F : Type 0} → Call F → String
key c = key_of c.client_id c.fresh

find-kept :
    {F : Type 0} (ledger added : Ledger F) (id : String) (r : ExecutionRecord F)
    → find ledger id ≡ some r
    → find (ledger ++ added) id ≡ some r
unfolding find
find-kept [] added id r h = cc
find-kept ((k, x) ∷ rest) added id r h = ground (arith, find-kept rest added id r)

module _ {F W : Type 0} ⦃fl : Float F⦄ (ex : Executor F W) (host : Host F W) where
  abbrev pub execute_call : Ledger F → Session F W → Call F → Outcome F W
  execute_call ledger s c = execute ex host ledger c.decision c.client_id c.fresh c.clock s

  -- The ledger and the session after some calls.
  unfoldable pub after : Ledger F → Session F W → List (Call F) → Ledger F × Session F W
  after ledger s [] = (ledger, s)
  after ledger s (c ∷ cs) = let out = execute_call ledger s c in after out.ledger out.session cs

  execute-keeps :
      (ledger : Ledger F) (s : Session F W) (c : Call F) (id : String) (r : ExecutionRecord F)
      → find ledger id ≡ some r
      → find (execute_call ledger s c).ledger id ≡ some r
  unfolding Filed
  execute-keeps ledger s c id r h =
      let (new, _, _, grown) =
        execute-Filed ex host ledger c.decision c.client_id c.fresh c.clock s in
      elim grown [
        | inl e ↦ ap (λ l. find l id) e ∙ h
        | inr (_, e) ↦ ap (λ l. find l id) e ∙ find-kept ledger ((key c, new) ∷ []) id r h
      ]

  after-keeps :
      (ledger : Ledger F) (s : Session F W) (cs : List (Call F)) (id : String)
      (r : ExecutionRecord F)
      → find ledger id ≡ some r
      → find (after ledger s cs).0 id ≡ some r
  unfolding after
  after-keeps ledger s [] id r h = h
  after-keeps ledger s (c ∷ cs) id r h =
      after-keeps (execute_call ledger s c).ledger (execute_call ledger s c).session cs id r
        (execute-keeps ledger s c id r h)

  execute-found :
      (ledger : Ledger F) (s : Session F W) (c : Call F) (r : ExecutionRecord F)
      → find ledger (key c) ≡ some r
      → execute_call ledger s c ≡ record { answer = ok r; ledger = ledger; session = s }
  unfolding execute execute_key
  execute-found ledger s c r h = rw h refl

  -- Idempotent replay: after a first call, and any further calls with any keys, a call with the
  -- first one's key answers the first one's record, whatever its decision says, and leaves the
  -- ledger and the session (the terminal, the orders sent, the calls made) as they are.
  pub replay :
      (ledger : Ledger F) (s : Session F W) (c : Call F) (cs : List (Call F)) (again : Call F)
      → key again ≡ key c
      → (r : ExecutionRecord F) × ((execute_call ledger s c).answer ≡ ok r)
        × (execute_call (after ledger s (c ∷ cs)).0 (after ledger s (c ∷ cs)).1 again ≡ record {
          answer = ok r;
          ledger = (after ledger s (c ∷ cs)).0;
          session = (after ledger s (c ∷ cs)).1;
        })
  unfolding after Filed
  replay ledger s c cs again same =
      let out = execute_call ledger s c in
      let (r, answer, filed, _) =
        execute-Filed ex host ledger c.decision c.client_id c.fresh c.clock s in
      (
        r,
        answer,
        execute-found _ _ again r (
            ap (find (after out.ledger out.session cs).0) same
            ∙ after-keeps out.ledger out.session cs (key c) r filed),
      )
