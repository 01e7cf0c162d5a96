-- ===== src/Memory/Tests.antt =====
-- Writes to the memories of an empty store.
use llm_mt5_agent.Prelude.{
  is_blank, split, text_length, take_chars, join, String, ◌≡◌, refl, false, some, [], ◌∷◌, arith,
}
use llm_mt5_agent.Python.Bind.{Yields}
use llm_mt5_agent.Python.Errors.{ok}
use llm_mt5_agent.Domain.Memory.{MemoryScope, MemoryKind}
use llm_mt5_agent.Samples.{noon}
use llm_mt5_agent.Memory.Store.{empty_store}
use llm_mt5_agent.Memory.Store.Queue.{Descends, IsTable}
use llm_mt5_agent.Memory.Facades.{clip, default_trade, append_row, recent_of}
use llm_mt5_agent.Memory.Facades.Window.{compact_row, Windowed, append_row-Windowed}
use llm_mt5_agent.Memory.Facades.Rounds.{
  Heads, append_row-recent_of, Write, write_all, IsBounded, write_all-IsBounded,
  empty_store-IsBounded,
}

empty_store-IsTable : IsTable empty_store
unfolding Descends
empty_store-IsTable = record { descends = tt; compact = tt }

abbrev note : String
note = "cycle  SUCCESS "

clip_squeezes : clip note ≡ "cycle SUCCESS"
unfolding clip split join text_length take_chars
clip_squeezes = refl

note_not_blank : is_blank (clip note) ≡ false
unfolding clip split join text_length take_chars is_blank
note_not_blank = refl

append_row-Windowed_example :
    ((append_row default_trade MemoryKind.outcome note "EURUSD" noon empty_store).0 ≡ ok 1)
    × Windowed default_trade
        (compact_row default_trade MemoryKind.outcome note "EURUSD" noon)
        empty_store
        (append_row default_trade MemoryKind.outcome note "EURUSD" noon empty_store).1
append_row-Windowed_example =
    append_row-Windowed default_trade MemoryKind.outcome note "EURUSD" noon empty_store
      empty_store-IsTable note_not_blank

append_row-recent_of_example :
    Yields
      (Heads (record (compact_row default_trade MemoryKind.outcome note "EURUSD" noon) {
        record_id = some 1;
      }))
      (recent_of default_trade 5 "EURUSD"
        (append_row default_trade MemoryKind.outcome note "EURUSD" noon empty_store).1).0
append_row-recent_of_example =
    append_row-recent_of default_trade MemoryKind.outcome note "EURUSD" noon empty_store 5
      empty_store-IsTable note_not_blank (omega arith) (omega arith)

abbrev outcome_write : Write
outcome_write = record {
  scope = MemoryScope.trade;
  kind = MemoryKind.outcome;
  summary = note;
  symbol = "EURUSD";
  clock = noon;
}

-- Memories of two rows each.
write_all-IsBounded_example :
    IsBounded
      (λ _. 2)
      (write_all (λ _. 2) (outcome_write ∷ outcome_write ∷ outcome_write ∷ []) empty_store)
write_all-IsBounded_example =
    write_all-IsBounded (λ _. 2) (outcome_write ∷ outcome_write ∷ outcome_write ∷ []) empty_store
      (empty_store-IsBounded (λ _. 2))
