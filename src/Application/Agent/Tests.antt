-- ===== src/Application/Agent/Tests.antt =====
-- A cycle and a loop of the agent against a broker that fills every order.
use llm_mt5_agent.Prelude.{
  is_blank, leb, length, str_ℕ, ℕ, ◌≤◌, String, ◌≡◌, refl, ◌⊎◌, none, some, false, List, [], ◌∷◌,
  arith,
}
use llm_mt5_agent.Python.Step.{pure, lift, catch, handled, continue, ◌>>=◌}
use llm_mt5_agent.Python.Decimal.{Decimal, decimal, decimal-IsOrdered}
use llm_mt5_agent.Domain.Market.{Timeframe}
use llm_mt5_agent.Strategies.Null.{null_strategy}
use llm_mt5_agent.Samples.{noon, supervisor, account_state, proposal, dec}
use llm_mt5_agent.Samples.Broker.{host, session, executor}
use llm_mt5_agent.Samples.Candles.{snapshot, breakout, registered}
use llm_mt5_agent.Application.Agent.Parts.{item, observe, Observer, ContextBuilder}
use llm_mt5_agent.Application.Agent.State.{
  TradingAgent, AgentState, Moment, outside, stage_failed, append_outcome, any_failed, new_frame,
}
use llm_mt5_agent.Application.Agent.Cycle.{
  halts, run_cycle, finish_watchdog, cycle_of, error_text, stages,
}
use llm_mt5_agent.Application.Agent.Loop.{Turn, symbol_at, after_cycle, run_loop}
use llm_mt5_agent.Application.Agent.Lawful.{LawfulOrder, run_cycle-LawfulOrder}
use llm_mt5_agent.Application.Agent.Loop.Runs.{Runs, idle, cycle, Ends}
use llm_mt5_agent.Application.Agent.Loop.Ending.{run_loop-max, run_loop-stop, InTurn, Runs-InTurn}
use llm_mt5_agent.Application.Agent.Loop.Failsafe.{Refused, Unchanged, Runs-Refused}
use llm_mt5_agent.Python.Errors.{ExceptionClass, raise}
use llm_mt5_agent.Application.Watchdog.{new_watchdog, should_halt, status, any_over, is_stale}
use llm_mt5_agent.Application.Agent.Stages.{observe_stage}
use llm_mt5_agent.Domain.Cycle.{AgentCycle, cycle_ok, new_stage_outcome}

abbrev observer : Observer Decimal ℕ
observer = record {
  get_snapshot = λ symbol timeframe candles. pure (snapshot breakout);
  get_state = pure account_state;
  open_positions = pure [];
  pending_orders = pure [];
}

abbrev builder : ContextBuilder Decimal ℕ
builder = record {
  strategies = null_strategy ∷ registered;
  strategy_memory = none;
  trade_memory = none;
  memory_notes_limit = 5;
}

-- Its planner always proposes the same BUY.
abbrev agent : TradingAgent Decimal ℕ
agent = record {
  observer = observer;
  context_builder = builder;
  planner = some (λ i. pure proposal);
  executor = executor;
  host = host;
  short_term = none;
  trade_memory = none;
  strategy_memory = none;
  candle_count = 50;
  default_volume = dec 1_000;
}

abbrev start : AgentState Decimal ℕ
start = record {
  supervisor = supervisor;
  ledger = [];
  session = session;
  watchdog = none;
  cycles = 0;
}

abbrev moment : String → Moment
moment id = record { cycle_id = id; fresh = "f"; clock = noon }

-- It sends one order, whose record says SUCCESS.
abbrev first_cycle : AgentCycle × AgentState Decimal ℕ
first_cycle = run_cycle (λ s. s) agent start "EURUSD" Timeframe.m5 (moment "a")

run_cycle-LawfulOrder_example :
    (first_cycle.1.session.sent ≡ [])
    ⊎ LawfulOrder (λ s. s) agent start "EURUSD" Timeframe.m5 (moment "a") first_cycle.1.session.sent
run_cycle-LawfulOrder_example =
    run_cycle-LawfulOrder decimal-IsOrdered (λ s. s) agent start "EURUSD" Timeframe.m5 (moment "a")

-- A stop is requested by the third turn.
abbrev turns : ℕ → Turn
turns index = record { stop_requested = leb 2 index; moment = moment (str_ℕ index) }

run_loop-max_example :
    Ends
      (λ s. s)
      agent
      ("EURUSD" ∷ [])
      Timeframe.m5
      (some 1)
      turns
      1
      start
      0
      []
      (run_loop (λ s. s) agent ("EURUSD" ∷ []) Timeframe.m5 (some 1) turns 2 start)
run_loop-max_example = run_loop-max (λ s. s) agent ("EURUSD" ∷ []) Timeframe.m5 turns 1 start

run_loop-stop_example :
    Ends
      (λ s. s)
      agent
      ("EURUSD" ∷ [])
      Timeframe.m5
      none
      turns
      2
      start
      0
      []
      (run_loop (λ s. s) agent ("EURUSD" ∷ []) Timeframe.m5 none turns 3 start)
run_loop-stop_example =
    run_loop-stop (λ s. s) agent ("EURUSD" ∷ []) Timeframe.m5 turns none 2 start refl

abbrev one_turn : AgentCycle × AgentState Decimal ℕ
one_turn = run_cycle (λ s. s) agent start "EURUSD" Timeframe.m5 (moment (str_ℕ 0))

one_run :
    Runs
      (λ s. s)
      agent
      ("EURUSD" ∷ [])
      Timeframe.m5
      none
      turns
      start
      0
      (after_cycle one_turn)
      (one_turn.0 ∷ [])
unfolding symbol_at item
one_run = cycle "EURUSD" refl refl idle

Runs-InTurn_example :
    InTurn (λ s. s) agent ("EURUSD" ∷ []) Timeframe.m5 turns 0 (one_turn.0 ∷ [])
    × (length (after_cycle one_turn).session.sent ≤ 1)
Runs-InTurn_example = Runs-InTurn (λ s. s) agent ("EURUSD" ∷ []) Timeframe.m5 turns one_run

-- An agent that sees no market, with a watchdog that halts at the first failed cycle.
abbrev blind : TradingAgent Decimal ℕ
blind = record agent {
  observer = record observer {
    get_snapshot = λ symbol timeframe candles.
        lift
          (raise (record { class = ExceptionClass.other "RuntimeError"; message = "no market" }));
  };
}

abbrev guarded : AgentState Decimal ℕ
guarded = record start {
  watchdog = some (new_watchdog (record { max_consecutive_failures = 1; stale_after_s = dec 0 }));
}

abbrev blind_cycle : AgentState Decimal ℕ → ℕ → AgentCycle × AgentState Decimal ℕ
blind_cycle s index = run_cycle (λ s. s) blind s "EURUSD" Timeframe.m5 (turns index).moment

abbrev halted : AgentState Decimal ℕ
halted = after_cycle (blind_cycle guarded 0)

abbrev BlindRuns : AgentState Decimal ℕ → ℕ → AgentState Decimal ℕ → List AgentCycle → Type 0
BlindRuns = Runs (λ s. s) blind ("EURUSD" ∷ []) Timeframe.m5 none turns

failing_run : BlindRuns guarded 0 halted ((blind_cycle guarded 0).0 ∷ [])
unfolding symbol_at item
failing_run = cycle "EURUSD" refl refl idle

later_run : BlindRuns halted 1 (after_cycle (blind_cycle halted 1)) ((blind_cycle halted 1).0 ∷ [])
unfolding symbol_at item
later_run = cycle "EURUSD" refl refl idle

blind_fails : cycle_ok (blind_cycle guarded 0).0 ≡ false
unfolding run_cycle cycle_ok halts new_watchdog should_halt status any_over is_stale finish_watchdog
    cycle_of error_text stages observe_stage outside observe stage_failed append_outcome any_failed
    new_stage_outcome is_blank new_frame catch handled continue llm_mt5_agent.Python.Step.◌>>=◌
blind_fails = refl

Runs-Refused_example :
    Refused ((blind_cycle halted 1).0 ∷ []) × Unchanged halted (after_cycle (blind_cycle halted 1))
unfolding new_watchdog
Runs-Refused_example =
    Runs-Refused (λ s. s) blind ("EURUSD" ∷ []) Timeframe.m5 none turns failing_run later_run
      (omega arith) (blind_fails, tt) (omega arith)
