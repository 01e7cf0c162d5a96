-- ===== src/Application/Agent/State.antt =====
-- mt5_agent/application/agent.py: what a `TradingAgent` holds, what changes while it runs, and the
-- dictionary and the outcomes of one cycle.
use llm_mt5_agent.Prelude.{any, ℕ, String, ◌<>◌, Bool, Option, none, some, List, [], ◌∷◌, ◌++◌}
use llm_mt5_agent.Python.Step.{Step, pure, lift, catch, modify, ◌>>=◌}
use llm_mt5_agent.Python.Errors.{ExceptionClass, Exception, Result, ok, raise}
use llm_mt5_agent.Python.Float.{Datetime}
use llm_mt5_agent.Domain.Strategy.{MarketContext, StrategySignal}
use llm_mt5_agent.Domain.Planning.{PlannerInput, TradeProposal, MemoryNote}
use llm_mt5_agent.Domain.Execution.{ExecutionRecord}
use llm_mt5_agent.Domain.Cycle.{Stage, StageStatus, is_failed, StageOutcome, new_stage_outcome}
use llm_mt5_agent.Risk.Supervisor.{SupervisorDecision, Supervisor}
use llm_mt5_agent.Execution.Session.{Session, Host}
use llm_mt5_agent.Execution.Records.{Executor}
use llm_mt5_agent.Execution.Executor.{Ledger}
use llm_mt5_agent.Application.Watchdog.{Watchdog}
use llm_mt5_agent.Application.Agent.Parts.{
  Observation, Observer, ContextBuilder, ShortTermMemory, TradeMemory, StrategyMemory,
}

-- The collaborators and settings of a `TradingAgent`. The planner is the interface `Planner`.
pub record TradingAgent (F W : Type 0) : Type 0 where
  pub observer : Observer F W
  pub context_builder : ContextBuilder F W
  pub planner : Option (PlannerInput F → Step W (TradeProposal F))
  pub executor : Executor F W
  pub host : Host F W
  pub short_term : Option (ShortTermMemory F W)
  pub trade_memory : Option (TradeMemory F W)
  pub strategy_memory : Option (StrategyMemory F W)
  pub candle_count : ℕ
  pub default_volume : F

-- What changes: the supervisor and the executor with their ledgers, the terminal session with the
-- outside world, the watchdog, and the number of cycles.
pub record AgentState (F W : Type 0) : Type 0 where
  pub supervisor : Supervisor F
  pub ledger : Ledger F
  pub session : Session F W
  pub watchdog : Option (Watchdog F)
  pub cycles : ℕ

-- The dictionary `state` of a cycle, `none` for a key that is not set.
pub record CycleState (F : Type 0) : Type 0 where
  pub observation : Option (Observation F)
  pub context : Option (MarketContext F)
  pub signals : Option (List (StrategySignal F))
  pub signal : Option (StrategySignal F)
  pub memory_notes : Option (List MemoryNote)
  pub planner_input : Option (PlannerInput F)
  pub proposal : Option (TradeProposal F)
  pub decision : Option (SupervisorDecision F)
  pub record_ : Option (ExecutionRecord F)

pub record Frame (F W : Type 0) : Type 0 where
  pub agent : AgentState F W
  pub outcomes : List StageOutcome
  pub state : CycleState F

-- What a cycle takes from outside: its new id, a further fresh id and the clock.
pub record Moment : Type 0 where
  pub cycle_id : String
  pub fresh : String
  pub clock : Datetime

unfoldable pub new_frame : {F W : Type 0} → AgentState F W → Frame F W
new_frame s = record {
  agent = s;
  outcomes = [];
  state = record {
    observation = none;
    context = none;
    signals = none;
    signal = none;
    memory_notes = none;
    planner_input = none;
    proposal = none;
    decision = none;
    record_ = none;
  };
}

-- `state[key]`
unfoldable pub required_key : {A : Type 0} → String → Option A → Result A
required_key key none =
    raise (record { class = ExceptionClass.other "KeyError"; message = "'" <> (key <> "'") })
required_key key (some a) = ok a

-- `_failed(outcomes)`
unfoldable pub any_failed : List StageOutcome → Bool
any_failed outcomes = any (λ o. is_failed o.status) outcomes

module _ {F W : Type 0} where
  -- A call that may change the outside world.
  unfoldable pub outside : {A : Type 0} → Step W A → Step (Frame F W) A
  outside m f =
      let (r, w) = m f.agent.session.world in
      (r, record f { agent = record f.agent { session = record f.agent.session { world = w } } })

  -- `outcomes.append(StageOutcome(stage, status, summary))`
  unfoldable pub append_outcome :
      Stage → StageStatus → String → Datetime → Step (Frame F W) (Unit {0})
  append_outcome stage status summary clock = do
    o ← lift (
        new_stage_outcome
          (record { stage = stage; status = status; summary = summary; at = clock }))
    modify (λ f. record f { outcomes = f.outcomes ++ (o ∷ []) })

  -- The handler of a stage: `except Exception as exc`
  unfoldable pub stage_failed : Stage → Datetime → Exception → Step (Frame F W) (Unit {0})
  stage_failed stage clock e = append_outcome stage StageStatus.failed e.message clock

  unfoldable pub set_state : (CycleState F → CycleState F) → Step (Frame F W) (Unit {0})
  set_state change = modify (λ f. record f { state = change f.state })

  -- A write to a memory: nothing without one, and its exceptions are only logged.
  unfoldable pub written : {M : Type 0} → Option M → (M → Step W ℕ) → Step (Frame F W) (Unit {0})
  written none write = pure tt
  written (some m) write = catch (do _ ← outside (write m); pure tt) (λ e. pure tt)

  -- The same, answering the number of writes that succeeded.
  unfoldable pub counted : {M : Type 0} → Option M → (M → Step W ℕ) → Step (Frame F W) ℕ
  counted none write = pure 0
  counted (some m) write = catch (do _ ← outside (write m); pure 1) (λ e. pure 0)
