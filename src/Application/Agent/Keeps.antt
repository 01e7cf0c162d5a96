-- ===== src/Application/Agent/Keeps.antt =====
-- mt5_agent/application/agent.py: which steps of a cycle leave the supervisor, the executor's ledger,
-- the loaded module, the sent orders, the decision, the observation and the proposal alone, whatever they do to the outside world.
use llm_mt5_agent.Prelude.{ℕ, String, ◌≡◌, Option, none, some, List}
use llm_mt5_agent.Python.Step.{Step, Keeps, bind-Keeps, catch-Keeps, if-Keeps, look-Keeps}
use llm_mt5_agent.Python.Errors.{Exception}
use llm_mt5_agent.Python.Float.{Float, Datetime}
use llm_mt5_agent.Domain.Planning.{PlannerInput, TradeProposal}
use llm_mt5_agent.Domain.Execution.{ExecutionRecord}
use llm_mt5_agent.Domain.Cycle.{Stage, StageStatus}
use llm_mt5_agent.Risk.Supervisor.{SupervisorDecision, Supervisor}
use llm_mt5_agent.Execution.Session.{Payload, Terminal}
use llm_mt5_agent.Execution.Executor.{Ledger}
use llm_mt5_agent.Application.Agent.Parts.{Observation}
use llm_mt5_agent.Application.Agent.State.{
  TradingAgent, CycleState, Frame, Moment, outside, append_outcome, stage_failed, set_state,
  written, counted,
}
use llm_mt5_agent.Application.Agent.Stages.{
  note_watchdog, strategy_memory_stage, propose, verify_record, verify_stage, count_observation,
  count_outcome, memory_update_stage,
}

-- What the theorems on orders follow through a cycle.
pub record Core (F W : Type 0) : Type 0 where
  pub supervisor : Supervisor F
  pub ledger : Ledger F
  pub loaded : Option (Terminal F W)
  pub sent : List (Payload F)
  pub decision : Option (SupervisorDecision F)
  pub observation : Option (Observation F)
  pub proposal : Option (TradeProposal F)

module _ {F W : Type 0} where
  abbrev pub core : Frame F W → Core F W
  core f = record {
    supervisor = f.agent.supervisor;
    ledger = f.agent.ledger;
    loaded = f.agent.session.mt5;
    sent = f.agent.session.sent;
    decision = f.state.decision;
    observation = f.state.observation;
    proposal = f.state.proposal;
  }

  -- A predicate of a frame that reads nothing but its core.
  pub record On (P : Core F W → Type 0) (f : Frame F W) : Type 0 where
    pub holds : P (core f)

  pub On-weaken :
      {P Q : Core F W → Type 0} → ((c : Core F W) → P c → Q c) → (f : Frame F W) → On P f → On Q f
  On-weaken w f h = record { holds = w (core f) h.holds }

  pub outside-Keeps :
      {P : Core F W → Type 0} {A : Type 0} (m : Step W A) → Keeps (On P) (On P) (outside m)
  unfolding outside
  outside-Keeps m = record { leads = λ f p. record { holds = p.holds } }

  pub set_state-Keeps :
      {P : Core F W → Type 0} (change : CycleState F → CycleState F)
      → ((s : CycleState F) → (change s).decision ≡ s.decision)
      → ((s : CycleState F) → (change s).observation ≡ s.observation)
      → ((s : CycleState F) → (change s).proposal ≡ s.proposal)
      → Keeps (On P) (On P) (set_state change)
  unfolding set_state
  set_state-Keeps change h o q = record {
    leads = λ f p. record { holds = rw (h f.state, o f.state, q f.state) p.holds };
  }

  pub append-Keeps :
      {P : Core F W → Type 0} (stage : Stage) (status : StageStatus) (summary : String)
      (clock : Datetime)
      → Keeps (On P) (On P) (append_outcome stage status summary clock)
  unfolding append_outcome
  append-Keeps stage status summary clock =
      bind-Keeps look-Keeps (λ o. record { leads = λ f p. record { holds = p.holds } })

  pub failed-Keeps :
      {P : Core F W → Type 0} (stage : Stage) (clock : Datetime) (e : Exception)
      → Keeps (On P) (On P) (stage_failed stage clock e)
  unfolding stage_failed
  failed-Keeps stage clock e = append-Keeps _ _ _ _

  pub written-Keeps :
      {P : Core F W → Type 0} {M : Type 0} (memory : Option M) (write : M → Step W ℕ)
      → Keeps (On P) (On P) (written memory write)
  unfolding written
  written-Keeps none write = look-Keeps
  written-Keeps (some m) write =
      catch-Keeps (bind-Keeps (outside-Keeps _) (λ _. look-Keeps)) (λ e. look-Keeps)

  pub counted-Keeps :
      {P : Core F W → Type 0} {M : Type 0} (memory : Option M) (write : M → Step W ℕ)
      → Keeps (On P) (On P) (counted memory write)
  unfolding counted
  counted-Keeps none write = look-Keeps
  counted-Keeps (some m) write =
      catch-Keeps (bind-Keeps (outside-Keeps _) (λ _. look-Keeps)) (λ e. look-Keeps)

  pub noted-Keeps :
      {P : Core F W → Type 0} (clock : Datetime) → Keeps (On P) (On P) (note_watchdog clock)
  unfolding note_watchdog
  noted-Keeps clock = record { leads = λ f p. record { holds = p.holds } }

pub ruleset keeping = (
  catch-Keeps, bind-Keeps, if-Keeps, outside-Keeps, set_state-Keeps, append-Keeps, look-Keeps,
  failed-Keeps, written-Keeps, counted-Keeps, noted-Keeps,
)

module _ {F W : Type 0} ⦃fl : Float F⦄ (repr : String → String) (a : TradingAgent F W) (m : Moment)
    (P : Core F W → Type 0) where
  pub strategy_memory_stage-Keeps : Keeps (On P) (On P) (strategy_memory_stage repr a m)
  unfolding strategy_memory_stage
  strategy_memory_stage-Keeps = search keeping depth 14

  pub propose-Keeps :
      (planner : Option (PlannerInput F → Step W (TradeProposal F))) (i : PlannerInput F)
      → Keeps (On P) (On P) (propose repr a m planner i)
  unfolding propose
  propose-Keeps none i = look-Keeps
  propose-Keeps (some plan) i = outside-Keeps (plan i)

  verify_record-Keeps :
      (row : Option (ExecutionRecord F)) → Keeps (On P) (On P) (verify_record repr a m row)
  unfolding verify_record
  verify_record-Keeps none = append-Keeps _ _ _ _
  verify_record-Keeps (some row) = append-Keeps _ _ _ _

  pub verify_stage-Keeps : Keeps (On P) (On P) (verify_stage repr a m)
  unfolding verify_stage
  verify_stage-Keeps = search (keeping, verify_record-Keeps) depth 14

  count_observation-Keeps :
      (o : Option (Observation F)) → Keeps (On P) (On P) (count_observation repr a m o)
  unfolding count_observation
  count_observation-Keeps none = look-Keeps
  count_observation-Keeps (some o) = counted-Keeps _ _

  count_outcome-Keeps :
      (row : Option (ExecutionRecord F)) → Keeps (On P) (On P) (count_outcome repr a m row)
  unfolding count_outcome
  count_outcome-Keeps none = look-Keeps
  count_outcome-Keeps (some row) = counted-Keeps _ _

  pub memory_update_stage-Keeps : Keeps (On P) (On P) (memory_update_stage repr a m)
  unfolding memory_update_stage
  memory_update_stage-Keeps =
      search (keeping, count_observation-Keeps, count_outcome-Keeps) depth 14
