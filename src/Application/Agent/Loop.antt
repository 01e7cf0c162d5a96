-- ===== src/Application/Agent/Loop.antt =====
-- mt5_agent/application/agent.py: `run`, which repeats cycles over the symbols in turn.
pub mod Runs
pub mod Ending
pub mod Failsafe
use llm_mt5_agent.Prelude.{
  leb, length, ℕ, zero, suc, ◌+◌, ◌%◌, String, Bool, true, false, ◌||◌, Option, none, some, List,
  [], ◌∷◌, ◌++◌,
}
use llm_mt5_agent.Python.Errors.{ExceptionClass, Result, ok, raise}
use llm_mt5_agent.Python.Float.{Float}
use llm_mt5_agent.Domain.Market.{Timeframe}
use llm_mt5_agent.Domain.Cycle.{AgentCycle}
use llm_mt5_agent.Application.Agent.State.{TradingAgent, AgentState, Moment}
use llm_mt5_agent.Application.Agent.Cycle.{halts, run_cycle}
use llm_mt5_agent.Application.Agent.Parts.{item}

-- What the loop meets at its turns: whether a stop was requested by then, and the moment.
pub record Turn : Type 0 where
  pub stop_requested : Bool
  pub moment : Moment

-- `max_cycles is not None and done >= max_cycles`
unfoldable pub reached : Option ℕ → ℕ → Bool
reached none done = false
reached (some most) done = leb most done

-- `symbols[index % len(symbols)]`
unfoldable pub symbol_at : List String → ℕ → Result String
symbol_at [] index = raise (record {
  class = ExceptionClass.other "ZeroDivisionError";
  message = "integer modulo by zero";
})
symbol_at (x ∷ xs) index = item (x ∷ xs) (index % length (x ∷ xs))

-- The state after a cycle of the loop: `self._cycles += 1`.
unfoldable pub after_cycle : {F W : Type 0} → AgentCycle × AgentState F W → AgentState F W
after_cycle x = record x.1 { cycles = x.1.cycles + 1 }

module _ {F W : Type 0} ⦃fl : Float F⦄ (repr : String → String) (a : TradingAgent F W)
    (symbols : List String) (timeframe : Timeframe) (max_cycles : Option ℕ) (turns : ℕ → Turn) where
  -- The three tests at the head of a turn.
  unfoldable pub stops : AgentState F W → ℕ → List AgentCycle → Bool
  stops s index done =
      (turns index).stop_requested
      || reached max_cycles (length done)
      || halts s.watchdog (turns index).moment.clock

  -- The loop with a bound on its turns, `none` where it is not over by then.
  unfoldable pub loop :
      ℕ → AgentState F W → ℕ → List AgentCycle → Option (Result (List AgentCycle) × AgentState F W)
  loop zero s index done = none
  loop (suc fuel) s index done = elim (stops s index done) [
    | true ↦ some (ok done, s)
    | false ↦ elim (symbol_at symbols index) [
      | raise e ↦ some (raise e, s)
      | ok symbol ↦
          let x = run_cycle repr a s symbol timeframe (turns index).moment in
          let cycles = done ++ (x.0 ∷ []) in
          elim (reached max_cycles (length cycles)) [
            | true ↦ some (ok cycles, after_cycle x)
            | false ↦ loop fuel (after_cycle x) (index + 1) cycles
          ]
    ]
  ]

  -- `self.run(symbols, timeframe, max_cycles=...)`
  unfoldable pub run_loop : ℕ → AgentState F W → Option (Result (List AgentCycle) × AgentState F W)
  run_loop fuel s = loop fuel s 0 []
