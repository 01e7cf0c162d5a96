-- ===== src/Memory/Facades.antt =====
-- mt5_agent/memory/memories.py: the scoped memories. A record's `data` is left out.
pub mod Rounds
pub mod Window
use llm_mt5_agent.Prelude.{
  ltb, leb, if◌then◌else◌, str_eq, split, text_length, take_chars, join, str_ℕ, ℕ, ◌-◌, String,
  ◌<>◌, Option, none, some, List,
}
use llm_mt5_agent.Python.Errors.{Result, ok, raise, ◌>>=◌, ◌>>◌, raise_if}
use llm_mt5_agent.Python.Float.{Float, Datetime}
use llm_mt5_agent.Domain.Memory.{
  MemoryScope, MemoryKind, max_summary_len, MemoryRecord, new_memory_record,
}
use llm_mt5_agent.Domain.Market.{MarketSnapshot, latest_close, timeframe_value}
use llm_mt5_agent.Domain.Strategy.{StrategySignal, direction_value}
use llm_mt5_agent.Domain.Planning.{TradeProposal, action_value}
use llm_mt5_agent.Domain.Execution.{ExecutionRecord, execution_status_value}
use llm_mt5_agent.Risk.Supervisor.{SupervisorDecision, decision_codes}
use llm_mt5_agent.Memory.Store.{Store, append, prune, recent, count}

-- `_clip(text)`
unfoldable pub clip : String → String
clip text =
    let squeezed = join " " (split text) in
    if leb (text_length squeezed) max_summary_len
    then take_chars max_summary_len squeezed
    else take_chars (max_summary_len - 1) squeezed <> "…"

pub record ScopedMemory : Type 0 where
  pub scope : MemoryScope
  pub keep_last : ℕ

-- `_ScopedMemory(store, keep_last)`, where a class has its scope and its own default
unfoldable pub new_scoped_memory : MemoryScope → ℕ → Option ℕ → Result ScopedMemory
new_scoped_memory scope default none = ok (record { scope = scope; keep_last = default })
new_scoped_memory scope default (some n) = do
  raise_if (ltb n 1) "keep_last must be >= 1"
  ok (record { scope = scope; keep_last = n })

abbrev pub default_short_term : ScopedMemory
default_short_term = record { scope = MemoryScope.short_term; keep_last = 100 }

abbrev pub default_trade : ScopedMemory
default_trade = record { scope = MemoryScope.trade; keep_last = 500 }

abbrev pub default_world : ScopedMemory
default_world = record { scope = MemoryScope.world; keep_last = 200 }

abbrev pub default_strategy : ScopedMemory
default_strategy = record { scope = MemoryScope.strategy; keep_last = 200 }

-- The row that `_append` makes.
unfoldable pub new_row :
    ScopedMemory → MemoryKind → String → String → Datetime → Result MemoryRecord
new_row m kind summary symbol clock = new_memory_record (record {
  scope = m.scope;
  kind = kind;
  summary = clip summary;
  symbol = symbol;
  created_at = clock;
  record_id = none;
})

-- The store after `append` and `prune`.
unfoldable pub stored : ScopedMemory → MemoryRecord → Store → Store × ℕ
stored m r s = let (s', id) = append s r in ((prune s' m.scope m.keep_last).0, id)

-- A record that is refused leaves the store alone.
unfoldable pub append_made : ScopedMemory → Result MemoryRecord → Store → Result ℕ × Store
append_made m (raise e) s = (raise e, s)
append_made m (ok r) s = let (s', id) = stored m r s in (ok id, s')

-- `self._append(kind, summary, symbol)`
unfoldable pub append_row :
    ScopedMemory → MemoryKind → String → String → Datetime → Store → Result ℕ × Store
append_row m kind summary symbol clock s = append_made m (new_row m kind summary symbol clock) s

-- `self.recent(limit, symbol)`
unfoldable pub recent_of : ScopedMemory → ℕ → String → Store → Result (List MemoryRecord) × Store
recent_of m limit symbol s = (recent s m.scope limit (some symbol) none none, s)

-- `self.count()`
unfoldable pub count_of_scope : ScopedMemory → Store → ℕ
count_of_scope m s = count s m.scope

-- A value or `None` in a text.
abbrev shown : {A : Type 0} → (A → String) → Option A → String
shown show none = "None"
shown show (some a) = show a

-- `','.join(decision.codes) or 'ok'`
unfoldable pub codes_or_ok : List String → String
codes_or_ok codes = let text = join "," codes in if str_eq text "" then "ok" else text

module _ {F : Type 0} ⦃fl : Float F⦄ (m : ScopedMemory) (clock : Datetime) where
  unfoldable pub record_observation : MarketSnapshot F → Store → Result ℕ × Store
  record_observation s =
      append_row m MemoryKind.market_observation
        (s.symbol
          <> (" "
              <> (timeframe_value s.timeframe <> (": close " <> shown fl.str (latest_close s)))))
        s.symbol clock

  unfoldable pub record_proposal : TradeProposal F → Store → Result ℕ × Store
  record_proposal p =
      append_row m MemoryKind.trade_proposal
        (action_value p.action <> (" " <> (p.symbol <> (" conf=" <> fl.fixed 2 p.confidence))))
        p.symbol clock

  unfoldable pub record_decision : SupervisorDecision F → Store → Result ℕ × Store
  record_decision d =
      append_row m MemoryKind.supervisor_decision
        ((if d.approved then "APPROVED" else "REJECTED")
          <> (" "
              <> (action_value d.proposal.action
                  <> (" "
                      <> (d.proposal.symbol
                          <> (" [" <> (codes_or_ok (decision_codes d) <> "]")))))))
        d.proposal.symbol clock

  unfoldable pub record_execution : ExecutionRecord F → Store → Result ℕ × Store
  record_execution r =
      append_row m MemoryKind.execution
        (execution_status_value r.status
          <> (" "
              <> (action_value r.action
                  <> (" "
                      <> (r.symbol
                          <> (" " <> (fl.str r.volume <> (" ticket=" <> shown str_ℕ r.ticket))))))))
        r.symbol clock

  unfoldable pub record_signal : StrategySignal F → Store → Result ℕ × Store
  record_signal s =
      append_row m MemoryKind.strategy_signal
        (s.strategy
          <> (":"
              <> (direction_value s.direction
                  <> (" " <> (s.symbol <> (" conf=" <> fl.fixed 2 s.confidence))))))
        s.symbol clock

module _ (m : ScopedMemory) (clock : Datetime) where
  -- `record_outcome(symbol, summary)` and the two methods `note(symbol, summary)`
  unfoldable pub record_outcome : String → String → Store → Result ℕ × Store
  record_outcome symbol summary = append_row m MemoryKind.outcome summary symbol clock

  unfoldable pub world_note : String → String → Store → Result ℕ × Store
  world_note symbol summary = append_row m MemoryKind.world_note summary symbol clock

  unfoldable pub strategy_note : String → String → Store → Result ℕ × Store
  strategy_note symbol summary = append_row m MemoryKind.strategy_note summary symbol clock
