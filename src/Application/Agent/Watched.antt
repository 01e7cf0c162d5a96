-- ===== src/Application/Agent/Watched.antt =====
-- mt5_agent/application/agent.py with watchdog.py: which counters a cycle leaves in the watchdog.
use llm_mt5_agent.Prelude.{ℕ, String, ◌≡◌, refl, ◌∙◌, Option, none, some}
use llm_mt5_agent.Python.Step.{Step, Keeps, bind-Keeps, catch-Keeps, if-Keeps, look-Keeps}
use llm_mt5_agent.Python.Errors.{Exception}
use llm_mt5_agent.Python.Float.{Float, Datetime}
use llm_mt5_agent.Domain.Market.{Timeframe}
use llm_mt5_agent.Domain.Planning.{PlannerInput, TradeProposal}
use llm_mt5_agent.Domain.Execution.{ExecutionRecord}
use llm_mt5_agent.Domain.Cycle.{Stage, StageStatus}
use llm_mt5_agent.Risk.Context.{RiskContext}
use llm_mt5_agent.Risk.Supervisor.{SupervisorDecision}
use llm_mt5_agent.Application.Watchdog.{Watchdog, count_of, note_observation}
use llm_mt5_agent.Application.Agent.Parts.{Observation}
use llm_mt5_agent.Application.Agent.State.{
  TradingAgent, CycleState, Frame, Moment, outside, append_outcome, stage_failed, set_state,
  written, counted,
}
use llm_mt5_agent.Application.Agent.Stages.{
  noted_observation, note_watchdog, observe_stage, strategy_memory_stage, propose, plan_stage,
  ask_supervisor, supervise_stage, ask_executor, execute_approved, execute_decision, execute_stage,
  verify_record, verify_stage, count_observation, count_outcome, memory_update_stage,
}
use llm_mt5_agent.Application.Agent.Cycle.{later_stages, stages}

-- The failures in a row that halt the agent, 0 without a watchdog, and those counted so far.
abbrev pub limit_of : {F : Type 0} → Option (Watchdog F) → ℕ
limit_of none = 0
limit_of (some w) = w.config.max_consecutive_failures

abbrev pub strikes_of : {F : Type 0} → Option (Watchdog F) → ℕ
strikes_of none = 0
strikes_of (some w) = count_of w.consecutive "cycle"

-- The frame's watchdog has the limit and the count of failed cycles of another one.
pub record Watched {F W : Type 0} (o : Option (Watchdog F)) (f : Frame F W) : Type 0 where
  pub limit : limit_of f.agent.watchdog ≡ limit_of o
  pub strikes : strikes_of f.agent.watchdog ≡ strikes_of o

observed-limit :
    {F : Type 0} (o : Option (Watchdog F)) (clock : Datetime)
    → limit_of (noted_observation o clock) ≡ limit_of o
unfolding noted_observation note_observation
observed-limit none clock = refl
observed-limit (some w) clock = refl

observed-strikes :
    {F : Type 0} (o : Option (Watchdog F)) (clock : Datetime)
    → strikes_of (noted_observation o clock) ≡ strikes_of o
unfolding noted_observation note_observation
observed-strikes none clock = refl
observed-strikes (some w) clock = refl

abbrev Holds : {F W A : Type 0} → Option (Watchdog F) → Step (Frame F W) A → Type 0
Holds o m = Keeps (Watched o) (Watched o) m

module _ {F W : Type 0} {o : Option (Watchdog F)} where
  outside-Watched : {A : Type 0} (m : Step W A) → Holds {W = W} o (outside m)
  unfolding outside
  outside-Watched m = record { leads = λ f p. record { limit = p.limit; strikes = p.strikes } }

  set_state-Watched : (change : CycleState F → CycleState F) → Holds {W = W} o (set_state change)
  unfolding set_state
  set_state-Watched change = record {
    leads = λ f p. record { limit = p.limit; strikes = p.strikes };
  }

  append-Watched :
      (stage : Stage) (status' : StageStatus) (summary : String) (clock : Datetime)
      → Holds {W = W} o (append_outcome stage status' summary clock)
  unfolding append_outcome
  append-Watched stage status' summary clock =
      bind-Keeps look-Keeps
        (λ x. record { leads = λ f p. record { limit = p.limit; strikes = p.strikes } })

  failed-Watched :
      (stage : Stage) (clock : Datetime) (e : Exception)
      → Holds {W = W} o (stage_failed stage clock e)
  unfolding stage_failed
  failed-Watched stage clock e = append-Watched _ _ _ _

  written-Watched :
      {M : Type 0} (memory : Option M) (write : M → Step W ℕ)
      → Holds {W = W} o (written memory write)
  unfolding written
  written-Watched none write = look-Keeps
  written-Watched (some m) write =
      catch-Keeps (bind-Keeps (outside-Watched _) (λ _. look-Keeps)) (λ e. look-Keeps)

  counted-Watched :
      {M : Type 0} (memory : Option M) (write : M → Step W ℕ)
      → Holds {W = W} o (counted memory write)
  unfolding counted
  counted-Watched none write = look-Keeps
  counted-Watched (some m) write =
      catch-Keeps (bind-Keeps (outside-Watched _) (λ _. look-Keeps)) (λ e. look-Keeps)

  noted-Watched : (clock : Datetime) → Holds {W = W} o (note_watchdog clock)
  unfolding note_watchdog
  noted-Watched clock = record {
    leads = λ f p. record {
      limit = observed-limit f.agent.watchdog clock ∙ p.limit;
      strikes = observed-strikes f.agent.watchdog clock ∙ p.strikes;
    };
  }

ruleset watching = (
  catch-Keeps, bind-Keeps, if-Keeps, outside-Watched, set_state-Watched, append-Watched, look-Keeps,
  failed-Watched, written-Watched, counted-Watched, noted-Watched,
)

module _ {F W : Type 0} ⦃fl : Float F⦄ (repr : String → String) (a : TradingAgent F W) (m : Moment)
    (o : Option (Watchdog F)) where
  observe_stage-Watched :
      (symbol : String) (timeframe : Timeframe) → Holds o (observe_stage repr a m symbol timeframe)
  unfolding observe_stage
  observe_stage-Watched symbol timeframe = search watching depth 14

  strategy_memory_stage-Watched : Holds o (strategy_memory_stage repr a m)
  unfolding strategy_memory_stage
  strategy_memory_stage-Watched = search watching depth 14

  propose-Watched :
      (planner : Option (PlannerInput F → Step W (TradeProposal F))) (i : PlannerInput F)
      → Holds o (propose repr a m planner i)
  unfolding propose
  propose-Watched none i = look-Keeps
  propose-Watched (some plan) i = outside-Watched (plan i)

  plan_stage-Watched : Holds o (plan_stage repr a m)
  unfolding plan_stage
  plan_stage-Watched = search (watching, propose-Watched) depth 14

  ask_supervisor-Watched :
      (p : TradeProposal F) (x : RiskContext F) → Holds o (ask_supervisor repr a m p x)
  unfolding ask_supervisor
  ask_supervisor-Watched p x = record {
    leads = λ f h. record { limit = h.limit; strikes = h.strikes };
  }

  supervise_stage-Watched : Holds o (supervise_stage repr a m)
  unfolding supervise_stage
  supervise_stage-Watched = search (watching, ask_supervisor-Watched) depth 14

  ask_executor-Watched : (d : SupervisorDecision F) → Holds o (ask_executor repr a m d)
  unfolding ask_executor
  ask_executor-Watched d = record { leads = λ f h. record { limit = h.limit; strikes = h.strikes } }

  execute_approved-Watched : (d : SupervisorDecision F) → Holds o (execute_approved repr a m d)
  unfolding execute_approved
  execute_approved-Watched d = search (watching, ask_executor-Watched) depth 14

  execute_decision-Watched :
      (d : Option (SupervisorDecision F)) → Holds o (execute_decision repr a m d)
  unfolding execute_decision
  execute_decision-Watched none = append-Watched _ _ _ _
  execute_decision-Watched (some d) = search (watching, execute_approved-Watched) depth 14

  execute_stage-Watched : Holds o (execute_stage repr a m)
  unfolding execute_stage
  execute_stage-Watched = search (watching, execute_decision-Watched) depth 14

  verify_record-Watched : (row : Option (ExecutionRecord F)) → Holds o (verify_record repr a m row)
  unfolding verify_record
  verify_record-Watched none = append-Watched _ _ _ _
  verify_record-Watched (some row) = append-Watched _ _ _ _

  verify_stage-Watched : Holds o (verify_stage repr a m)
  unfolding verify_stage
  verify_stage-Watched = search (watching, verify_record-Watched) depth 14

  count_observation-Watched : (x : Option (Observation F)) → Holds o (count_observation repr a m x)
  unfolding count_observation
  count_observation-Watched none = look-Keeps
  count_observation-Watched (some x) = counted-Watched _ _

  count_outcome-Watched : (row : Option (ExecutionRecord F)) → Holds o (count_outcome repr a m row)
  unfolding count_outcome
  count_outcome-Watched none = look-Keeps
  count_outcome-Watched (some row) = counted-Watched _ _

  memory_update_stage-Watched : Holds o (memory_update_stage repr a m)
  unfolding memory_update_stage
  memory_update_stage-Watched =
      search (watching, count_observation-Watched, count_outcome-Watched) depth 14

  later_stages-Watched : Holds o (later_stages repr a m)
  unfolding later_stages
  later_stages-Watched = bind-Keeps strategy_memory_stage-Watched (λ _.
      bind-Keeps plan_stage-Watched (λ _. bind-Keeps supervise_stage-Watched (λ _.
        bind-Keeps execute_stage-Watched
          (λ _. bind-Keeps verify_stage-Watched (λ _. memory_update_stage-Watched)))))

  -- Whatever its stages do, a cycle's failures so far are as many as when it began.
  pub stages-Watched :
      (symbol : String) (timeframe : Timeframe) → Holds o (stages repr a symbol timeframe m)
  unfolding stages
  stages-Watched symbol timeframe =
      bind-Keeps (observe_stage-Watched symbol timeframe)
        (λ _. bind-Keeps look-Keeps (λ failed. if-Keeps failed look-Keeps later_stages-Watched))
