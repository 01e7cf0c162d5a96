-- ===== src/Domain/Memory.antt =====
-- mt5_agent/domain/memory.py. A record's `data`, which nothing reads back, is left out.
use llm_mt5_agent.Prelude.{ltb, is_blank, text_length, ℕ, String, Bool, true, false, Option}
use llm_mt5_agent.Python.Bind.{◌>>◌}
use llm_mt5_agent.Python.Errors.{Result, ok, raise_if}
use llm_mt5_agent.Python.Float.{Datetime}

pub data MemoryScope : Type 0 where
  short_term trade world strategy : MemoryScope

abbrev pub scope_eq : MemoryScope → MemoryScope → Bool
scope_eq short_term short_term = true
scope_eq trade trade = true
scope_eq world world = true
scope_eq strategy strategy = true
scope_eq _ _ = false

pub data MemoryKind : Type 0 where
  market_observation strategy_signal trade_proposal supervisor_decision : MemoryKind
  execution outcome strategy_note world_note : MemoryKind

-- `kind.value`
unfoldable pub kind_value : MemoryKind → String
kind_value market_observation = "market_observation"
kind_value strategy_signal = "strategy_signal"
kind_value trade_proposal = "trade_proposal"
kind_value supervisor_decision = "supervisor_decision"
kind_value execution = "execution"
kind_value outcome = "outcome"
kind_value strategy_note = "strategy_note"
kind_value world_note = "world_note"

-- `kind.scope()`
unfoldable pub kind_scope : MemoryKind → MemoryScope
kind_scope trade_proposal = trade
kind_scope supervisor_decision = trade
kind_scope execution = trade
kind_scope outcome = trade
kind_scope market_observation = short_term
kind_scope strategy_signal = strategy
kind_scope strategy_note = strategy
kind_scope _ = world

abbrev pub max_summary_len : ℕ
max_summary_len = 280

pub record MemoryRecord : Type 0 where
  pub scope : MemoryScope
  pub kind : MemoryKind
  pub summary : String
  pub symbol : String
  pub created_at : Datetime
  pub record_id : Option ℕ

unfoldable pub new_memory_record : MemoryRecord → Result MemoryRecord
new_memory_record r = do
  raise_if (is_blank r.summary) "summary must be non-empty"
  raise_if (ltb max_summary_len (text_length r.summary))
      "summary exceeds 280 chars (keep records compact)"
  ok r
