-- ===== src/Memory/Store.antt =====
-- mt5_agent/memory/sqlite_store.py: the table `memory_records`, its rows from the newest id down, and
-- the SQL statements by what they mean. Created-at texts are compared as the instants they stand for.
pub mod Queue
use llm_mt5_agent.Prelude.{
  ltb, leb, ◌==◌, length, take, filter, any, str_eq, ℕ, ◌+◌, ◌-◌, String, Bool, true, not, ◌&&◌,
  ◌||◌, Option, none, some, List, [], ◌∷◌, map,
}
use llm_mt5_agent.Python.Bind.{◌>>=◌, ◌>>◌}
use llm_mt5_agent.Python.Errors.{Result, ok, raise_if}
use llm_mt5_agent.Python.Float.{Datetime}
use llm_mt5_agent.Domain.Memory.{
  MemoryScope, scope_eq, MemoryKind, kind_value, MemoryRecord, new_memory_record,
}

pub record Row : Type 0 where
  pub id : ℕ
  pub value : MemoryRecord

-- The rows, and the next id of AUTOINCREMENT, which is above every id ever used.
pub record Store : Type 0 where
  pub rows : List Row
  pub next_id : ℕ

abbrev pub empty_store : Store
empty_store = record { rows = []; next_id = 1 }

-- `store.append(record)`
unfoldable pub append : Store → MemoryRecord → Store × ℕ
append s r = (
  record { rows = record { id = s.next_id; value = r } ∷ s.rows; next_id = s.next_id + 1 },
  s.next_id,
)

-- `scope = ?`
unfoldable pub in_scope : MemoryScope → Row → Bool
in_scope scope r = scope_eq r.value.scope scope

abbrev pub kind_eq : MemoryKind → MemoryKind → Bool
kind_eq a b = str_eq (kind_value a) (kind_value b)

-- The further clauses of a query, each only where it is given; an empty symbol gives none.
unfoldable pub matches : Option String → Option MemoryKind → Option Datetime → Row → Bool
matches symbol kind since r =
    elim symbol [ none ↦ true | some s ↦ str_eq s "" || str_eq r.value.symbol s ]
    && (elim kind [ none ↦ true | some k ↦ kind_eq r.value.kind k ]
        && elim since [ none ↦ true | some t ↦ leb t r.value.created_at ])

-- `_row_to_record(row)`
unfoldable pub row_to_record : Row → Result MemoryRecord
row_to_record r = new_memory_record (record r.value { record_id = some r.id })

unfoldable pub rows_to_records : List Row → Result (List MemoryRecord)
rows_to_records [] = ok []
rows_to_records (r ∷ rest) = do
  first ← row_to_record r
  others ← rows_to_records rest
  ok (first ∷ others)

-- `SELECT ... WHERE ... ORDER BY id DESC LIMIT ?`
unfoldable pub selected :
    Store → MemoryScope → ℕ → Option String → Option MemoryKind → Option Datetime → List Row
selected s scope limit symbol kind since =
    take limit (filter (λ r. in_scope scope r && matches symbol kind since r) s.rows)

-- `store.recent(scope, limit, symbol, kind, since)`
unfoldable pub recent :
    Store
    → MemoryScope
    → ℕ
    → Option String
    → Option MemoryKind
    → Option Datetime
    → Result (List MemoryRecord)
recent s scope limit symbol kind since = do
  raise_if (ltb limit 1) "limit must be >= 1"
  rows_to_records (selected s scope limit symbol kind since)

-- `store.count(scope)`
unfoldable pub count : Store → MemoryScope → ℕ
count s scope = length (filter (in_scope scope) s.rows)

-- `SELECT id ... WHERE scope = ? ORDER BY id DESC LIMIT ?`
unfoldable pub kept_ids : MemoryScope → ℕ → List Row → List ℕ
kept_ids scope keep_last rows = map (λ r. r.id) (take keep_last (filter (in_scope scope) rows))

abbrev pub member : ℕ → List ℕ → Bool
member i ids = any (λ j. i == j) ids

-- `DELETE ... WHERE scope = ? AND id NOT IN (...)`
unfoldable pub kept : MemoryScope → List ℕ → Row → Bool
kept scope ids r = not (in_scope scope r && not (member r.id ids))

-- `store.prune(scope, keep_last)`
unfoldable pub prune : Store → MemoryScope → ℕ → Store × ℕ
prune s scope keep_last =
    let rest = filter (kept scope (kept_ids scope keep_last s.rows)) s.rows in
    (record s { rows = rest }, length s.rows - length rest)
