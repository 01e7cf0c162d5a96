-- ===== src/Application/Agent/Stages.antt =====
-- mt5_agent/application/agent.py: the steps of a cycle. Each appends what it did to the outcomes,
-- and its exceptions become a FAILED outcome, unless that one is refused for a blank text.
use llm_mt5_agent.Prelude.{
  if◌then◌else◌, is_none, length, join, str_ℕ, ℕ, ◌+◌, String, ◌<>◌, not, ◌&&◌, Option, none, some,
  [], ◌∷◌,
}
use llm_mt5_agent.Python.Step.{Step, pure, lift, read, read_or_raise, catch, modify, ◌>>=◌, ◌>>◌}
use llm_mt5_agent.Python.Errors.{Result, ok}
use llm_mt5_agent.Python.Float.{Float, ◌<?◌, lit, Datetime}
use llm_mt5_agent.Domain.Market.{Timeframe, MarketSnapshot, latest_close, tick_spread}
use llm_mt5_agent.Domain.Strategy.{direction_value, select_primary}
use llm_mt5_agent.Domain.Planning.{
  PlannerInput, TradeProposal, TradeAction, is_actionable, action_eq, action_value,
  new_trade_proposal,
}
use llm_mt5_agent.Domain.Execution.{ExecutionRecord, execution_status_value}
use llm_mt5_agent.Domain.Cycle.{Stage, StageStatus}
use llm_mt5_agent.Risk.Context.{RiskContext, Dict}
use llm_mt5_agent.Risk.Supervisor.{SupervisorDecision, decision_codes, review}
use llm_mt5_agent.Ai.Planner.{hold_proposal}
use llm_mt5_agent.Execution.Executor.{execute}
use llm_mt5_agent.Strategies.Service.{analyze_all}
use llm_mt5_agent.Application.Watchdog.{Watchdog, note_observation}
use llm_mt5_agent.Application.Agent.Parts.{
  Observation, observe, build_context, memory_notes, build_planner_input,
}
use llm_mt5_agent.Application.Agent.State.{
  TradingAgent, Frame, Moment, required_key, outside, append_outcome, stage_failed, set_state,
  written, counted,
}

-- A value or `None` in a text.
unfoldable pub text_of : {A : Type 0} → (A → String) → Option A → String
text_of show none = "None"
text_of show (some a) = show a

unfoldable pub noted_observation :
    {F : Type 0} → Option (Watchdog F) → Datetime → Option (Watchdog F)
noted_observation none clock = none
noted_observation (some w) clock = some (note_observation w (some clock) clock)

module _ {F : Type 0} ⦃fl : Float F⦄ where
  -- `spread_points` and `symbol_points` of `_supervise_stage`
  unfoldable pub points_of : MarketSnapshot F → Dict F × Dict F
  points_of s = elim s.tick [
    | none ↦ ([], [])
    | some tick ↦ elim s.symbol_info [
      | none ↦ ([], [])
      | some info ↦
          if lit 0 <? info.point
          then ((s.symbol, fl.div (tick_spread tick) info.point) ∷ [], (s.symbol, info.point) ∷ [])
          else ([], [])
    ]
  ]

  -- The context that the supervisor is given.
  unfoldable pub risk_context : Observation F → Datetime → RiskContext F
  risk_context o clock = record {
    account = o.account;
    positions = o.positions;
    orders = o.orders;
    spreads_points = (points_of o.snapshot).0;
    symbol_points = (points_of o.snapshot).1;
    server_time = clock;
    day_pnl = o.account.day_realized_pnl;
    recent_decisions = [];
  }

  -- A proposal to buy or sell that names no volume gets the default one; `replace` checks it again.
  unfoldable pub with_volume : F → TradeProposal F → Result (TradeProposal F)
  with_volume volume p =
      if is_actionable p && is_none p.volume
      then new_trade_proposal (record p { volume = some volume })
      else ok p

-- `status` of `_supervise_stage`
unfoldable pub verdict_text : {F : Type 0} → SupervisorDecision F → String
verdict_text d =
    if d.approved then "approved" else "rejected [" <> (join "," (decision_codes d) <> "]")

-- `self._watchdog.note_observation(observed_at)`, if there is a watchdog
unfoldable pub note_watchdog : {F W : Type 0} → Datetime → Step (Frame F W) (Unit {0})
note_watchdog clock = modify (λ f. record f {
  agent = record f.agent { watchdog = noted_observation f.agent.watchdog clock };
})

module _ {F W : Type 0} ⦃fl : Float F⦄ (repr : String → String) (a : TradingAgent F W)
    (m : Moment) where
  -- `self._observe(symbol, timeframe, outcomes, state)`
  unfoldable pub observe_stage : String → Timeframe → Step (Frame F W) (Unit {0})
  observe_stage symbol timeframe =
      catch
        (do
          observation ← outside (observe a.observer symbol timeframe a.candle_count m.clock)
          set_state (λ s. record s { observation = some observation })
          note_watchdog observation.observed_at
          append_outcome Stage.observe StageStatus.ok_
              (symbol <> (" close=" <> text_of fl.str (latest_close observation.snapshot))) m.clock
          context ← lift (build_context observation)
          set_state (λ s. record s { context = some context })
          append_outcome Stage.context StageStatus.ok_ "context built" m.clock)
        (stage_failed Stage.observe m.clock)

  -- `self._strategy_memory_stage(outcomes, state)`
  unfoldable pub strategy_memory_stage : Step (Frame F W) (Unit {0})
  strategy_memory_stage =
      catch
        (do
          context ← read_or_raise (λ f. required_key "context" f.state.context)
          signals ← lift (analyze_all a.context_builder.strategies context m.clock)
          set_state (λ s. record s { signals = some signals })
          primary ← lift (select_primary signals)
          set_state (λ s. record s { signal = some primary })
          written a.strategy_memory (λ memory. memory.record_signal primary)
          notes ← outside (memory_notes a.context_builder context.symbol)
          set_state (λ s. record s { memory_notes = some notes })
          append_outcome Stage.strategy StageStatus.ok_
              (primary.strategy <> (":" <> direction_value primary.direction)) m.clock
          append_outcome Stage.memory StageStatus.ok_ (str_ℕ (length notes) <> " notes") m.clock)
        (stage_failed Stage.strategy m.clock)

  -- The proposal of the planner, or a HOLD without one.
  unfoldable pub propose :
      Option (PlannerInput F → Step W (TradeProposal F))
      → PlannerInput F
      → Step (Frame F W) (TradeProposal F)
  propose none i = lift (hold_proposal i "LLM not configured: HOLD" m.clock)
  propose (some plan) i = outside (plan i)

  -- `self._plan_stage(outcomes, state)`
  unfoldable pub plan_stage : Step (Frame F W) (Unit {0})
  plan_stage =
      catch
        (do
          observation ← read_or_raise (λ f. required_key "observation" f.state.observation)
          planner_input ← outside (build_planner_input a.context_builder observation none m.clock)
          set_state (λ s. record s { planner_input = some planner_input })
          proposal ← propose a.planner planner_input
          set_state (λ s. record s { proposal = some proposal })
          written a.trade_memory (λ memory. memory.record_proposal proposal)
          append_outcome Stage.plan StageStatus.ok_
              (action_value proposal.action <> (" conf=" <> fl.fixed 2 proposal.confidence))
              m.clock)
        (stage_failed Stage.plan m.clock)

  -- `self._supervisor.review(proposal, context)`
  unfoldable pub ask_supervisor :
      TradeProposal F → RiskContext F → Step (Frame F W) (SupervisorDecision F)
  ask_supervisor p x f =
      let (supervisor, answer) = review repr f.agent.supervisor p x none m.clock in
      (answer, record f { agent = record f.agent { supervisor = supervisor } })

  -- `self._supervise_stage(outcomes, state)`
  unfoldable pub supervise_stage : Step (Frame F W) (Unit {0})
  supervise_stage =
      catch
        (do
          observation ← read_or_raise (λ f. required_key "observation" f.state.observation)
          planned ← read_or_raise (λ f. required_key "proposal" f.state.proposal)
          proposal ← lift (with_volume a.default_volume planned)
          set_state (λ s. record s { proposal = some proposal })
          decision ← ask_supervisor proposal (risk_context observation m.clock)
          set_state (λ s. record s { decision = some decision })
          written a.trade_memory (λ memory. memory.record_decision decision)
          append_outcome Stage.supervise StageStatus.ok_ (verdict_text decision) m.clock)
        (stage_failed Stage.supervise m.clock)

  -- `self._executor.execute(decision, client_id=state.get("cycle_id"))`
  unfoldable pub ask_executor : SupervisorDecision F → Step (Frame F W) (ExecutionRecord F)
  ask_executor d f =
      let out =
        execute a.executor a.host f.agent.ledger d (some m.cycle_id) m.fresh m.clock
          f.agent.session in
      (
        out.answer,
        record f { agent = record f.agent { ledger = out.ledger; session = out.session } },
      )

  -- The execution of an approved decision that is no HOLD.
  unfoldable pub execute_approved : SupervisorDecision F → Step (Frame F W) (Unit {0})
  execute_approved decision = do
    row ← ask_executor decision
    set_state (λ s. record s { record_ = some row })
    written a.trade_memory (λ memory. memory.record_execution row)
    append_outcome Stage.execute StageStatus.ok_
        (execution_status_value row.status <> (" ticket=" <> text_of str_ℕ row.ticket)) m.clock

  unfoldable pub execute_decision : Option (SupervisorDecision F) → Step (Frame F W) (Unit {0})
  execute_decision none = append_outcome Stage.execute StageStatus.skipped "not approved" m.clock
  execute_decision (some d) =
      if not d.approved
      then append_outcome Stage.execute StageStatus.skipped "not approved" m.clock
      else if action_eq d.proposal.action TradeAction.hold
      then append_outcome Stage.execute StageStatus.skipped "HOLD" m.clock
      else execute_approved d

  -- `self._execute_stage(outcomes, state)`
  unfoldable pub execute_stage : Step (Frame F W) (Unit {0})
  execute_stage =
      catch (do decision ← read (λ f. f.state.decision); execute_decision decision)
        (stage_failed Stage.execute m.clock)

  unfoldable pub verify_record : Option (ExecutionRecord F) → Step (Frame F W) (Unit {0})
  verify_record none = append_outcome Stage.verify StageStatus.skipped "nothing executed" m.clock
  verify_record (some row) =
      append_outcome Stage.verify StageStatus.ok_
        (execution_status_value row.status <> (" slippage=" <> text_of fl.str row.slippage)) m.clock

  -- `self._verify_stage(outcomes, state)`
  unfoldable pub verify_stage : Step (Frame F W) (Unit {0})
  verify_stage =
      catch (do row ← read (λ f. f.state.record_); verify_record row)
        (stage_failed Stage.verify m.clock)

  -- The two writes of `_memory_update_stage`, where the cycle has the value to write.
  unfoldable pub count_observation : Option (Observation F) → Step (Frame F W) ℕ
  count_observation none = pure 0
  count_observation (some o) = counted a.short_term (λ memory. memory.record_observation o.snapshot)

  unfoldable pub count_outcome : Option (ExecutionRecord F) → Step (Frame F W) ℕ
  count_outcome none = pure 0
  count_outcome (some row) = counted a.trade_memory (λ memory.
      memory.record_outcome row.symbol ("cycle " <> execution_status_value row.status)
        (execution_status_value row.status))

  -- `self._memory_update_stage(outcomes, state)`
  unfoldable pub memory_update_stage : Step (Frame F W) (Unit {0})
  memory_update_stage =
      catch
        (do
          observation ← read (λ f. f.state.observation)
          first ← count_observation observation
          row ← read (λ f. f.state.record_)
          second ← count_outcome row
          append_outcome Stage.memory_update StageStatus.ok_ (str_ℕ (first + second) <> " writes")
              m.clock)
        (stage_failed Stage.memory_update m.clock)
