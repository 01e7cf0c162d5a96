-- ===== src/Application/Agent/Cycle.antt =====
-- mt5_agent/application/agent.py: `run_cycle`, which chains the stages and reports to the watchdog.
use llm_mt5_agent.Prelude.{
  if◌then◌else◌, str_eq, String, ◌<>◌, Bool, false, Option, none, some, [], ◌∷◌,
}
use llm_mt5_agent.Python.Step.{Step, pure, read, ◌>>=◌, ◌>>◌}
use llm_mt5_agent.Python.Errors.{class_name, Result, ok, raise}
use llm_mt5_agent.Python.Float.{Float, Datetime}
use llm_mt5_agent.Domain.Market.{Timeframe, timeframe_value}
use llm_mt5_agent.Domain.Cycle.{Stage, StageStatus, AgentCycle, cycle_ok}
use llm_mt5_agent.Application.Watchdog.{Watchdog, note_success, note_failure, should_halt}
use llm_mt5_agent.Application.Agent.State.{
  TradingAgent, AgentState, Frame, Moment, new_frame, any_failed,
}
use llm_mt5_agent.Application.Agent.Stages.{
  observe_stage, strategy_memory_stage, plan_stage, supervise_stage, execute_stage, verify_stage,
  memory_update_stage,
}

-- The text of the last-resort guard: empty without an exception.
unfoldable pub error_text : {A : Type 0} → Result A → String
error_text (ok a) = ""
error_text (raise e) = class_name e.class <> (": " <> e.message)

-- `cycle.error or "cycle degraded"`
unfoldable pub cycle_error : AgentCycle → String
cycle_error c = if str_eq c.error "" then "cycle degraded" else c.error

-- The report to the watchdog of `_finish_watchdog`.
unfoldable pub noted_cycle :
    {F : Type 0} → Option (Watchdog F) → Bool → String → Datetime → Option (Watchdog F)
noted_cycle none good error clock = none
noted_cycle (some w) good error clock =
    some (if good then note_success w "cycle" else note_failure w "cycle" error clock)

-- `self._watchdog is not None and self._watchdog.should_halt()`
unfoldable pub halts : {F : Type 0} ⦃fl : Float F⦄ → Option (Watchdog F) → Datetime → Bool
halts none clock = false
halts (some w) clock = should_halt w clock

-- The cycle that a halted watchdog refuses.
unfoldable pub refused_cycle : String → Timeframe → Moment → AgentCycle
refused_cycle symbol timeframe m = record {
  cycle_id = m.cycle_id;
  symbol = symbol;
  timeframe = timeframe_value timeframe;
  stages =
      record {
        stage = Stage.observe;
        status = StageStatus.skipped;
        summary = "watchdog halt: no new cycles";
        at = m.clock;
      }
      ∷ [];
  started_at = m.clock;
  finished_at = m.clock;
  error = "watchdog halt";
}

module _ {F W : Type 0} where
  -- The `AgentCycle` of `_finish`
  unfoldable pub cycle_of : String → Timeframe → Moment → Result (Unit {0}) × Frame F W → AgentCycle
  cycle_of symbol timeframe m (answer, f) = record {
    cycle_id = m.cycle_id;
    symbol = symbol;
    timeframe = timeframe_value timeframe;
    stages = f.outcomes;
    started_at = m.clock;
    finished_at = m.clock;
    error = error_text answer;
  }

  -- `self._finish_watchdog(...)`
  unfoldable pub finish_watchdog :
      String → Timeframe → Moment → Result (Unit {0}) × Frame F W → AgentCycle × AgentState F W
  finish_watchdog symbol timeframe m x =
      let cycle = cycle_of symbol timeframe m x in
      (
        cycle,
        record x.1.agent {
          watchdog = noted_cycle x.1.agent.watchdog (cycle_ok cycle) (cycle_error cycle) m.clock;
        },
      )

module _ {F W : Type 0} ⦃fl : Float F⦄ (repr : String → String) (a : TradingAgent F W) where
  -- The stages after `_observe`.
  unfoldable pub later_stages : Moment → Step (Frame F W) (Unit {0})
  later_stages m = do
    strategy_memory_stage repr a m
    plan_stage repr a m
    supervise_stage repr a m
    execute_stage repr a m
    verify_stage repr a m
    memory_update_stage repr a m

  -- The body of the `try` of `run_cycle`.
  unfoldable pub stages : String → Timeframe → Moment → Step (Frame F W) (Unit {0})
  stages symbol timeframe m = do
    observe_stage repr a m symbol timeframe
    failed ← read (λ f. any_failed f.outcomes)
    if failed then pure tt else later_stages m

  -- `self.run_cycle(symbol, timeframe)`
  unfoldable pub run_cycle :
      AgentState F W → String → Timeframe → Moment → AgentCycle × AgentState F W
  run_cycle s symbol timeframe m =
      if halts s.watchdog m.clock
      then (refused_cycle symbol timeframe m, s)
      else finish_watchdog symbol timeframe m (stages symbol timeframe m (new_frame s))
