-- ===== src/Application/Agent/Orders.antt =====
-- mt5_agent/application/agent.py: when a cycle sends an order.
use llm_mt5_agent.Prelude.{
  not, if-cases, String, ◌≡◌, refl, subst, ◌∙◌, ◌⊎◌, inl, inr, Option, none, some, List,
}
use llm_mt5_agent.Python.Step.{
  Keeps, then-Keeps, known-Keeps, bind-Keeps, catch-Keeps, if-Keeps, weaken-Keeps, look-Keeps,
}
use llm_mt5_agent.Python.Errors.{Result, ok-inj}
use llm_mt5_agent.Python.Float.{Float}
use llm_mt5_agent.Domain.Market.{Timeframe}
use llm_mt5_agent.Domain.Planning.{action_eq, TradeAction}
use llm_mt5_agent.Risk.Supervisor.{SupervisorDecision}
use llm_mt5_agent.Execution.Session.{Session, Payload}
use llm_mt5_agent.Execution.Executor.{find, key_of, Outcome}
use llm_mt5_agent.Execution.Executor.Requests.{Placed, Allowed}
use llm_mt5_agent.Execution.Executor.Safety.{Effect, execute-Effect}
use llm_mt5_agent.Domain.Cycle.{Stage, StageStatus, AgentCycle}
use llm_mt5_agent.Application.Agent.State.{
  TradingAgent, AgentState, Frame, Moment, new_frame, append_outcome,
}
use llm_mt5_agent.Application.Agent.Stages.{
  ask_executor, execute_approved, execute_decision, execute_stage,
}
use llm_mt5_agent.Application.Agent.Keeps.{
  Core, On, On-weaken, append-Keeps, failed-Keeps, keeping, strategy_memory_stage-Keeps,
  verify_stage-Keeps, memory_update_stage-Keeps,
}
use llm_mt5_agent.Application.Agent.Reviews.{
  Reviewed, DecisionOf, Fresh, Decided, Started, observe_stage-Keeps, plan_stage-Keeps,
  supervise_stage-Keeps,
}
use llm_mt5_agent.Application.Agent.Cycle.{halts, finish_watchdog, later_stages, stages, run_cycle}

module _ {F W : Type 0} ⦃fl : Float F⦄ (repr : String → String) (a : TradingAgent F W)
    (s0 : AgentState F W) (symbol : String) (timeframe : Timeframe) (m : Moment) where
  -- What the proofs follow through the stages.
  abbrev AtStart : Core F W → Type 0
  AtStart = Fresh repr a s0 symbol timeframe m

  abbrev AtEnd : Core F W → Type 0
  AtEnd = Decided repr a s0 symbol timeframe m

  abbrev pub Answered : SupervisorDecision F → Type 0
  Answered = Reviewed repr a s0 symbol timeframe m

  -- The one order of a cycle: asked for by a decision of the same cycle, under the cycle's id, which
  -- is new, from a session with the module that was loaded when the cycle began, if one was, and in which
  -- no order of the cycle was sent before.
  pub record Ordered (sent : List (Payload F)) : Type 0 where
    pub decision : SupervisorDecision F
    pub reviewed : Answered decision
    pub allowed : Allowed a.executor a.host decision
    pub is_new : find s0.ledger (key_of (some m.cycle_id) m.fresh) ≡ none
    pub before : Session F W
    pub loaded_before : before.mt5 ≡ s0.session.mt5
    pub unsent_before : before.sent ≡ s0.session.sent
    pub after : Session F W
    pub placed :
        Placed a.executor a.host decision.proposal (key_of (some m.cycle_id) m.fresh) before after
    pub is_last : sent ≡ after.sent

  -- The sent orders after a cycle.
  abbrev pub Acts : List (Payload F) → Type 0
  Acts sent = (sent ≡ s0.session.sent) ⊎ Ordered sent

  abbrev pub Acted : Core F W → Type 0
  Acted c = Acts c.sent

  Decided-Acted : (c : Core F W) → AtEnd c → Acted c
  Decided-Acted c h = inl h.sent

  Fresh-Acted : (c : Core F W) → AtStart c → Acted c
  Fresh-Acted c h = inl h.sent

  executed-Acts :
      (d : SupervisorDecision F) (f : Frame F W) (out : Outcome F W)
      → On AtEnd f
      → Answered d
      → Effect a.executor a.host f.agent.ledger d
          (key_of (some m.cycle_id) m.fresh)
          f.agent.session
          out
      → Acts out.session.sent
  unfolding Effect
  executed-Acts d f out h r (inl (e, _)) = inl (e ∙ h.holds.sent)
  executed-Acts d f out h r (inr (n, allowed, placed, _)) = inr (record {
    decision = d;
    reviewed = r;
    allowed = allowed;
    is_new = rw h.holds.ledger at n;
    before = f.agent.session;
    loaded_before = h.holds.loaded;
    unsent_before = h.holds.sent;
    after = out.session;
    placed = placed;
    is_last = refl;
  })

  ask_executor-Keeps :
      (d : SupervisorDecision F)
      → Answered d
      → Keeps (On AtEnd) (On Acted) (ask_executor repr a m d)
  unfolding ask_executor
  ask_executor-Keeps d r = record {
    leads = λ f h. record {
      holds = executed-Acts d f _ h r (
          execute-Effect a.executor a.host f.agent.ledger d (some m.cycle_id) m.fresh m.clock
            f.agent.session);
    };
  }

  execute_approved-Keeps :
      (d : SupervisorDecision F)
      → Answered d
      → Keeps (On AtEnd) (On Acted) (execute_approved repr a m d)
  unfolding execute_approved
  execute_approved-Keeps d r =
      then-Keeps (λ s h. h) (ask_executor-Keeps d r) (λ row. search keeping depth 14)

  idle-Keeps :
      (status : StageStatus) (summary : String)
      → Keeps (On AtEnd) (On Acted) (append_outcome Stage.execute status summary m.clock)
  idle-Keeps status summary =
      weaken-Keeps (On-weaken Decided-Acted) (append-Keeps Stage.execute status summary m.clock)

  execute_decision-Keeps :
      (d : Option (SupervisorDecision F))
      → DecisionOf repr a s0 symbol timeframe m d
      → Keeps (On AtEnd) (On Acted) (execute_decision repr a m d)
  unfolding execute_decision DecisionOf
  execute_decision-Keeps none r = idle-Keeps StageStatus.skipped "not approved"
  execute_decision-Keeps (some d) r =
      if-Keeps (not d.approved) (idle-Keeps StageStatus.skipped "not approved") (
        if-Keeps (action_eq d.proposal.action TradeAction.hold)
          (idle-Keeps StageStatus.skipped "HOLD") (execute_approved-Keeps d r))

  pub execute_stage-Keeps : Keeps (On AtEnd) (On Acted) (execute_stage repr a m)
  unfolding execute_stage
  execute_stage-Keeps =
      catch-Keeps
        (known-Keeps (DecisionOf repr a s0 symbol timeframe m) (On-weaken Decided-Acted) look-Keeps
          (λ f h d e. subst (DecisionOf repr a s0 symbol timeframe m) (ok-inj e) h.holds.decided)
          execute_decision-Keeps)
        (λ e. failed-Keeps _ _ e)

  later_stages-Keeps : Keeps (On AtStart) (On Acted) (later_stages repr a m)
  unfolding later_stages
  later_stages-Keeps =
      then-Keeps (On-weaken Fresh-Acted) (strategy_memory_stage-Keeps repr a m AtStart) (λ _.
        then-Keeps (On-weaken Fresh-Acted) (plan_stage-Keeps repr a s0 symbol timeframe m) (λ _.
          then-Keeps (On-weaken Decided-Acted) (supervise_stage-Keeps repr a s0 symbol timeframe m)
            (λ _.
              then-Keeps (λ s h. h) execute_stage-Keeps
                (λ _.
                  bind-Keeps (verify_stage-Keeps repr a m Acted)
                    (λ _. memory_update_stage-Keeps repr a m Acted)))))

  stages-Keeps :
      Keeps (Started repr a s0 symbol timeframe m) (On Acted) (stages repr a symbol timeframe m)
  unfolding stages
  stages-Keeps =
      then-Keeps (On-weaken Fresh-Acted) (observe_stage-Keeps repr a s0 symbol timeframe m) (λ _.
        then-Keeps (On-weaken Fresh-Acted) look-Keeps (λ failed.
          if-Keeps failed (weaken-Keeps (On-weaken Fresh-Acted) look-Keeps) later_stages-Keeps))

  finish-Acts :
      (x : Result (Unit {0}) × Frame F W)
      → On Acted x.1
      → Acts (finish_watchdog symbol timeframe m x).1.session.sent
  unfolding finish_watchdog
  finish-Acts x h = h.holds

  -- A cycle sends at most one order. It sends one only for a decision that the supervisor, as it was
  -- when the cycle began, answered in this cycle to what was observed in it and to what the planner
  -- proposed for that, that is approved and no HOLD, under the cycle's id, which the executor's
  -- ledger did not hold, and after every guard of the executor, `order_check` included.
  pub run_cycle-Acts : Acts (run_cycle repr a s0 symbol timeframe m).1.session.sent
  unfolding run_cycle
  run_cycle-Acts =
      if-cases (halts s0.watchdog m.clock)
        (λ (x : AgentCycle × AgentState F W). Acts x.1.session.sent) (λ _. inl refl)
        (λ _. finish-Acts _ (stages-Keeps.leads (new_frame s0) refl))
