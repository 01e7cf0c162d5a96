-- ===== src/Application/Agent/Parts.antt =====
-- mt5_agent/application/agent.py: `Observer` and `ContextBuilder`. The services and the memories
-- are interfaces over a state `W` of the outside world.
use llm_mt5_agent.Prelude.{
  ltb, if◌then◌else◌, length, take, filter, str_eq, ℕ, zero, suc, ◌-◌, ◌*◌, String, ◌<>◌, Option,
  none, some, List, [], ◌∷◌, ◌++◌,
}
use llm_mt5_agent.Python.Step.{Step, pure, lift, catch, ◌>>=◌}
use llm_mt5_agent.Python.Errors.{ExceptionClass, Result, ok, raise}
use llm_mt5_agent.Python.Float.{Float, Datetime}
use llm_mt5_agent.Domain.Market.{Timeframe, MarketSnapshot}
use llm_mt5_agent.Domain.Trading.{Position, Order, AccountState}
use llm_mt5_agent.Domain.Strategy.{
  MarketContext, StrategySignal, new_market_context, select_primary,
}
use llm_mt5_agent.Domain.Planning.{
  MemoryNote, new_memory_note, PlannerInput, new_planner_input, TradeProposal,
}
use llm_mt5_agent.Domain.Execution.{ExecutionRecord}
use llm_mt5_agent.Domain.Memory.{kind_value, MemoryRecord}
use llm_mt5_agent.Risk.Supervisor.{SupervisorDecision}
use llm_mt5_agent.Strategies.Strategy.{Strategy}
use llm_mt5_agent.Strategies.Service.{analyze_all}

pub record Observation (F : Type 0) : Type 0 where
  pub snapshot : MarketSnapshot F
  pub account : AccountState F
  pub positions : List (Position F)
  pub orders : List (Order F)
  pub observed_at : Datetime

-- The methods of the four services that an `Observer` calls.
pub record Observer (F W : Type 0) : Type 0 where
  pub get_snapshot : String → Timeframe → ℕ → Step W (MarketSnapshot F)
  pub get_state : Step W (AccountState F)
  pub open_positions : Step W (List (Position F))
  pub pending_orders : Step W (List (Order F))

-- The methods of the memories that an agent calls; a write answers a row's number.
pub record ShortTermMemory (F W : Type 0) : Type 0 where
  pub record_observation : MarketSnapshot F → Step W ℕ

pub record StrategyMemory (F W : Type 0) : Type 0 where
  pub record_signal : StrategySignal F → Step W ℕ
  pub recent : ℕ → String → Step W (List MemoryRecord)

pub record TradeMemory (F W : Type 0) : Type 0 where
  pub record_proposal : TradeProposal F → Step W ℕ
  pub record_decision : SupervisorDecision F → Step W ℕ
  pub record_execution : ExecutionRecord F → Step W ℕ
  pub record_outcome : String → String → String → Step W ℕ
  pub recent : ℕ → String → Step W (List MemoryRecord)

pub record ContextBuilder (F W : Type 0) : Type 0 where
  pub strategies : List (Strategy F)
  pub strategy_memory : Option (StrategyMemory F W)
  pub trade_memory : Option (TradeMemory F W)
  pub memory_notes_limit : ℕ

-- `self.observe(symbol, timeframe, count)`
unfoldable pub observe :
    {F W : Type 0} → Observer F W → String → Timeframe → ℕ → Datetime → Step W (Observation F)
observe o symbol timeframe candles clock = do
  snapshot ← o.get_snapshot symbol timeframe candles
  account ← o.get_state
  positions ← o.open_positions
  orders ← o.pending_orders
  pure (record {
    snapshot = snapshot;
    account = account;
    positions = positions;
    orders = orders;
    observed_at = clock;
  })

unfoldable pub build_context : {F : Type 0} → Observation F → Result (MarketContext F)
build_context o = new_market_context (record {
  symbol = o.snapshot.symbol;
  timeframe = o.snapshot.timeframe;
  snapshot = o.snapshot;
  account_state = some o.account;
})

-- The notes of one memory, up to the first that is refused.
unfoldable pub notes_of : String → List MemoryRecord → List MemoryNote
notes_of scope [] = []
notes_of scope (r ∷ rest) =
    elim (new_memory_note
      (record { kind = scope <> ("/" <> kind_value r.kind); text = r.summary })) [
        | ok note ↦ note ∷ notes_of scope rest
        | raise _ ↦ []
      ]

-- One turn of the loop of `memory_notes`: a memory that fails has no notes.
unfoldable pub read_notes :
    {W : Type 0} → String → Option (Step W (List MemoryRecord)) → Step W (List MemoryNote)
read_notes scope none = pure []
read_notes scope (some recent) =
    catch (do records ← recent; pure (notes_of scope records)) (λ e. pure [])

module _ {F W : Type 0} where
  abbrev recent_signals : ContextBuilder F W → String → Option (Step W (List MemoryRecord))
  recent_signals b symbol = elim b.strategy_memory [
    | none ↦ none
    | some m ↦ some (m.recent b.memory_notes_limit symbol)
  ]

  abbrev recent_trades : ContextBuilder F W → String → Option (Step W (List MemoryRecord))
  recent_trades b symbol = elim b.trade_memory [
    | none ↦ none
    | some m ↦ some (m.recent b.memory_notes_limit symbol)
  ]

  -- `self.memory_notes(symbol)`
  unfoldable pub memory_notes : ContextBuilder F W → String → Step W (List MemoryNote)
  memory_notes b symbol = do
    signals ← read_notes "strategy" (recent_signals b symbol)
    trades ← read_notes "trade" (recent_trades b symbol)
    pure (take (b.memory_notes_limit * 2) (signals ++ trades))

-- `signals[index]`
unfoldable pub item : {A : Type 0} → List A → ℕ → Result A
item [] i =
    raise
      (record { class = ExceptionClass.other "IndexError"; message = "list index out of range" })
item (x ∷ xs) zero = ok x
item (x ∷ xs) (suc i) = item xs i

-- The signal for the planner: the primary one, or the one at a given index.
unfoldable pub signal_at :
    {F : Type 0} → Option ℕ → List (StrategySignal F) → Result (StrategySignal F)
signal_at none signals = select_primary signals
signal_at (some i) signals =
    item signals (if ltb i (length signals - 1) then i else length signals - 1)

-- `self.build_planner_input(observation, signal_index)`
unfoldable pub build_planner_input :
    {F W : Type 0} ⦃fl : Float F⦄
    → ContextBuilder F W
    → Observation F
    → Option ℕ
    → Datetime
    → Step W (PlannerInput F)
build_planner_input b o index clock = do
  context ← lift (build_context o)
  signals ← lift (analyze_all b.strategies context clock)
  signal ← lift (signal_at index signals)
  notes ← memory_notes b o.snapshot.symbol
  lift (
      new_planner_input (record {
        symbol = o.snapshot.symbol;
        timeframe = o.snapshot.timeframe;
        snapshot = o.snapshot;
        signal = signal;
        account = some o.account;
        open_positions = filter (λ p. str_eq p.symbol o.snapshot.symbol) o.positions;
        memory = notes;
      }))
