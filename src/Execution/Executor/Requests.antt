-- ===== src/Execution/Executor/Requests.antt =====
-- mt5_agent/execution/executor.py: what `_run` does once a request is tried.
use llm_mt5_agent.Prelude.{
  ◌≡◌, refl, String, true, false, not, ◌&&◌, Option, none, [], ◌∷◌, ◌++◌, ◌⊎◌, inl, inr, Bool-cases,
}
use llm_mt5_agent.Python.Errors.{Exception, Result, ok, raise, is_os_error}
use llm_mt5_agent.Python.Float.{Float, Datetime}
use llm_mt5_agent.Domain.Planning.{TradeProposal, action_eq, hold}
use llm_mt5_agent.Domain.Execution.{
  ExecutionStatus, success, rejected, failed, unknown, dry_run, live, mode_eq, status_eq,
  OrderRequest, ExecutionRecord,
}
use llm_mt5_agent.Risk.Supervisor.{SupervisorDecision}
use llm_mt5_agent.Execution.Session.{Session, Host, Terminal}
use llm_mt5_agent.Execution.Reply.{payload}
use llm_mt5_agent.Execution.Records.{Executor, record_of, to_request}
use llm_mt5_agent.Execution.Live.{execute_live}
use llm_mt5_agent.Execution.Live.Orders.{Says, Cleared, Ends, new_execution_record-Says}
use llm_mt5_agent.Execution.Live.Sends.{execute_live-Ends}
use llm_mt5_agent.Execution.Executor.{is_not_connected, handle, caught, simulated, run_request}

module _ {F W : Type 0} ⦃fl : Float F⦄ (ex : Executor F W) (host : Host F W) where
  -- No record says that an order was filled, but that of a dry run.
  abbrev pub Unfilled : Result (ExecutionRecord F) → Type 0
  Unfilled answer =
      Says (λ r. (status_eq r.status success && not (mode_eq ex.mode dry_run)) ≡ false) answer

  abbrev pub Unrefused : Result (ExecutionRecord F) → Type 0
  Unrefused answer = Says (λ r. status_eq r.status rejected ≡ false) answer

  -- One order was sent, the request of the proposal, and every guard had passed.
  pub record Placed (p : TradeProposal F) (key : String) (s s' : Session F W) : Type 0 where
    pub not_dry : mode_eq ex.mode dry_run ≡ false
    pub request : OrderRequest F
    pub built : to_request ex p key ≡ ok request
    pub mt5 : Terminal F W
    pub price : F
    pub cleared : Cleared ex host request s mt5 price
    pub order_sent : s'.sent ≡ s.sent ++ (payload mt5 request price ∷ [])

  -- The decision allows an order.
  pub record Allowed (d : SupervisorDecision F) : Type 0 where
    pub approved : d.approved ≡ true
    pub directional : action_eq d.proposal.action hold ≡ false
    pub live_allowed : (mode_eq ex.mode live && not ex.allow_live) ≡ false

  pub record_of-Says :
      (P : ExecutionStatus → Type 0) (id : String) (p : TradeProposal F) (st : ExecutionStatus)
      (message code : String) (price : Option F) (clock : Datetime)
      → P st
      → Says (λ r. P r.status) (record_of ex id p st message code price clock)
  unfolding record_of
  record_of-Says P id p st message code price clock h =
      new_execution_record-Says _ (λ r. P r.status) h

  handle-Says :
      (P : ExecutionStatus → Type 0) (id : String) (p : TradeProposal F) (clock : Datetime)
      (e : Exception)
      → P failed
      → P unknown
      → Says (λ r. P r.status) (handle ex id p clock e)
  unfolding handle
  handle-Says P id p clock e f u = elim (Bool-cases (is_not_connected e.class)) [
    | inl h ↦ rw h (record_of-Says P id p failed _ _ none clock f)
    | inr h ↦ rw h (elim (Bool-cases (is_os_error e.class)) [
      | inl k ↦ rw k (record_of-Says P id p unknown _ _ none clock u)
      | inr k ↦ rw k (record_of-Says P id p failed _ _ none clock f)
    ])
  ]

  unfoldable pub RequestEnds :
      TradeProposal F → String → Session F W → Result (ExecutionRecord F) × Session F W → Type 0
  RequestEnds p key s (answer, s') =
      ((s'.sent ≡ s.sent) × Unfilled answer) ⊎ (Placed p key s s' × Unrefused answer)

  caught-Ends :
      (p : TradeProposal F) (key : String) (clock : Datetime) (request : OrderRequest F)
      (s : Session F W) (x : Result (ExecutionRecord F) × Session F W)
      → mode_eq ex.mode dry_run ≡ false
      → to_request ex p key ≡ ok request
      → Ends ex host request s x
      → RequestEnds p key s (caught ex key p clock x)
  unfolding caught Ends RequestEnds
  caught-Ends p key clock request s (ok r, s') nd b (inl (e, h)) = inl (e, rw h refl)
  caught-Ends p key clock request s (raise x, s') nd b (inl (e, h)) = inl (
    e,
    handle-Says (λ st. (status_eq st success && not (mode_eq ex.mode dry_run)) ≡ false) key p clock
        x refl refl,
  )
  caught-Ends p key clock request s (ok r, s') nd b (inr (mt5, price, c, e, h)) = inr (
    record {
      not_dry = nd;
      request = request;
      built = b;
      mt5 = mt5;
      price = price;
      cleared = c;
      order_sent = e;
    },
    h,
  )
  caught-Ends p key clock request s (raise x, s') nd b (inr (mt5, price, c, e, h)) = inr (
    record {
      not_dry = nd;
      request = request;
      built = b;
      mt5 = mt5;
      price = price;
      cleared = c;
      order_sent = e;
    },
    handle-Says (λ st. status_eq st rejected ≡ false) key p clock x refl refl,
  )

  pub refused-Ends :
      (d : SupervisorDecision F) (key message : String) (clock : Datetime) (s : Session F W)
      → RequestEnds d.proposal key s (record_of ex key d.proposal rejected message "" none clock, s)
  unfolding RequestEnds
  refused-Ends d key message clock s = inl (
    refl,
    record_of-Says (λ st. (status_eq st success && not (mode_eq ex.mode dry_run)) ≡ false) key
        d.proposal rejected message _ none clock refl,
  )

  simulated-Says :
      (request : OrderRequest F) (key : String) (clock : Datetime)
      → mode_eq ex.mode dry_run ≡ true
      → Unfilled (simulated ex request key clock)
  unfolding simulated
  simulated-Says request key clock h =
      new_execution_record-Says _
        (λ r. (status_eq r.status success && not (mode_eq ex.mode dry_run)) ≡ false) (rw h refl)

  dry-Ends :
      (p : TradeProposal F) (key : String) (clock : Datetime) (request : OrderRequest F)
      (s : Session F W)
      → mode_eq ex.mode dry_run ≡ true
      → RequestEnds p key s (simulated ex request key clock, s)
  unfolding RequestEnds
  dry-Ends p key clock request s y = inl (refl, simulated-Says request key clock y)

  pub run_request-Ends :
      (d : SupervisorDecision F) (key : String) (clock : Datetime)
      (request : Result (OrderRequest F)) (s : Session F W)
      → to_request ex d.proposal key ≡ request
      → RequestEnds d.proposal key s (run_request ex host d.proposal key clock request s)
  unfolding run_request
  run_request-Ends d key clock (raise e) s h = refused-Ends d key e.message clock s
  run_request-Ends d key clock (ok request) s h = elim (Bool-cases (mode_eq ex.mode dry_run)) [
    | inl y ↦ rw y (dry-Ends d.proposal key clock request s y)
    | inr n ↦ rw n (
        caught-Ends d.proposal key clock request s (execute_live ex host request d.proposal clock s)
          n h (execute_live-Ends ex host request s d.proposal clock))
  ]
