-- ===== src/Memory/Facades/Rounds.antt =====
-- mt5_agent/memory/memories.py: what is read back after a write, and the size after many.
use llm_mt5_agent.Prelude.{
  ltb, Bool-cases, length, take, filter, All, str_eq, str_eq_iff, is_blank, ℕ, zero, suc, ◌-◌, ◌≤◌,
  String, ◌≡◌, refl, sym, ap, subst, ◌∙◌, inl, inr, Bool, true, false, ◌&&◌, none, some, List, [],
  ◌∷◌, arith,
}
use llm_mt5_agent.Python.Bind.{◌>>=◌, Yields, Yields-bind}
use llm_mt5_agent.Python.Errors.{ok}
use llm_mt5_agent.Python.Float.{Datetime}
use llm_mt5_agent.Domain.Memory.{MemoryScope, scope_eq, MemoryKind, MemoryRecord}
use llm_mt5_agent.Memory.Store.{
  Row, Store, empty_store, in_scope, matches, row_to_record, rows_to_records, selected, recent,
  count,
}
use llm_mt5_agent.Memory.Store.Queue.{view, Descends, IsCompact, IsTable, All-filter}
use llm_mt5_agent.Memory.Facades.{clip, ScopedMemory, append_row, recent_of, count_of_scope}
use llm_mt5_agent.Memory.Facades.Window.{
  scope_eq_sound, row_of, compact_row, new_memory_record-ok, clip-IsCompact, append_row-refused,
  Windowed, append_row-Windowed,
}

take-head :
    {A : Type 0} (n : ℕ) (x : A) (xs : List A) → 1 ≤ n → take n (x ∷ xs) ≡ x ∷ take (n - 1) xs
take-head zero x xs h = absurd (omega arith)
take-head (suc n) x xs h = ap (λ k. x ∷ take k xs) (omega arith)

length-take : {A : Type 0} (n : ℕ) (xs : List A) → length (take n xs) ≤ n
length-take zero xs = omega arith
length-take (suc n) [] = omega arith
length-take (suc n) (x ∷ xs) = omega (arith, length-take n xs)

All-take : {A : Type 0} (P : A → Type 0) (n : ℕ) (xs : List A) → All P xs → All P (take n xs)
All-take P zero xs h = tt
All-take P (suc n) [] h = tt
All-take P (suc n) (x ∷ xs) (e, h) = (e, All-take P n xs h)

filter-and :
    {A : Type 0} (p q : A → Bool) (xs : List A)
    → filter (λ x. p x && q x) xs ≡ filter q (filter p xs)
filter-and p q [] = refl
filter-and p q (x ∷ xs) = elim (Bool-cases (p x)) [
  | inl e ↦ rw (e, filter-and p q xs) refl
  | inr e ↦ rw (e, filter-and p q xs) refl
]

-- The record is the first of the list.
abbrev pub Heads : MemoryRecord → List MemoryRecord → Type 0
Heads r [] = ⊥
Heads r (x ∷ xs) = x ≡ r

row_to_record-ok :
    (r : Row) → IsCompact r.value → row_to_record r ≡ ok (record r.value { record_id = some r.id })
unfolding row_to_record
row_to_record-ok r c = new_memory_record-ok (record r.value { record_id = some r.id }) c

rows_to_records-Yields :
    (rows : List Row)
    → All (λ r. IsCompact r.value) rows
    → Yields (λ _. Unit {0}) (rows_to_records rows)
unfolding rows_to_records
rows_to_records-Yields [] h = tt
rows_to_records-Yields (r ∷ rest) (c, h) = rw (row_to_record-ok r c) (
    Yields-bind (λ _. Unit {0}) (λ _. Unit {0}) (ok (record r.value { record_id = some r.id })) _ tt
      (λ x _.
        Yields-bind (λ _. Unit {0}) (λ _. Unit {0}) (rows_to_records rest) _
          (rows_to_records-Yields rest h) (λ xs _. tt)))

rows_to_records-Heads :
    (r : Row) (rest : List Row)
    → IsCompact r.value
    → All (λ x. IsCompact x.value) rest
    → Yields (Heads (record r.value { record_id = some r.id })) (rows_to_records (r ∷ rest))
unfolding rows_to_records ◌>>=◌
rows_to_records-Heads r rest c h = rw (row_to_record-ok r c) (
    Yields-bind (λ _. Unit {0}) (Heads (record r.value { record_id = some r.id }))
      (rows_to_records rest) _ (rows_to_records-Yields rest h) (λ xs _. refl))

-- The rows that a query by scope and symbol selects, from the window of the scope.
selected-window :
    (m : ScopedMemory) (t : Store) (limit : ℕ) (symbol : String) (r : Row) (rest : List Row)
    → view m.scope t ≡ r ∷ rest
    → matches (some symbol) none none r ≡ true
    → 1 ≤ limit
    → selected t m.scope limit (some symbol) none none
      ≡ r ∷ take (limit - 1) (filter (matches (some symbol) none none) rest)
unfolding selected
selected-window m t limit symbol r rest e k l =
    let q = matches (some symbol) none none in
    rw (filter-and (in_scope m.scope) q t.rows, e, k) (take-head limit r (filter q rest) l)

matches-symbol :
    (r : Row) (symbol : String) → r.value.symbol ≡ symbol → matches (some symbol) none none r ≡ true
unfolding matches
matches-symbol r symbol e =
    let same : str_eq r.value.symbol symbol ≡ true = (str_eq_iff r.value.symbol symbol).1 e in
    rw same (ground arith)

-- What is written is read back first: after a write of a text that is not blank once it is clipped,
-- to a well-formed table, a query of the memory for its symbol, with a limit of 1 or more, returns
-- the written record first, with the id that the write answered. The memory keeps 1 row or more.
pub append_row-recent_of :
    (m : ScopedMemory) (kind : MemoryKind) (summary symbol : String) (clock : Datetime) (s : Store)
    (limit : ℕ)
    → IsTable s
    → is_blank (clip summary) ≡ false
    → 1 ≤ m.keep_last
    → 1 ≤ limit
    → Yields
        (Heads (record (compact_row m kind summary symbol clock) { record_id = some s.next_id }))
        (recent_of m limit symbol (append_row m kind summary symbol clock s).1).0
unfolding recent_of recent ◌>>=◌ rows_to_records
append_row-recent_of m kind summary symbol clock s limit h b k l =
    let r = compact_row m kind summary symbol clock in
    let t = (append_row m kind summary symbol clock s).1 in
    let w = (append_row-Windowed m kind summary symbol clock s h b).1 in
    let rest = take (m.keep_last - 1) (view m.scope s) in
    let first = w.window ∙ take-head m.keep_last (row_of r s) (view m.scope s) k in
    let positive : ltb limit 1 ≡ false = ground arith in
    rw
      (
        positive,
        selected-window m t limit symbol (row_of r s) rest first
            (matches-symbol (row_of r s) symbol refl) l,
      )
      (rows_to_records-Heads (row_of r s)
        (take (limit - 1) (filter (matches (some symbol) none none) rest))
        (clip-IsCompact m kind summary symbol clock b)
        (All-take (λ x. IsCompact x.value) (limit - 1) _
          (All-filter (λ x. IsCompact x.value) _ rest
            (All-take (λ x. IsCompact x.value) (m.keep_last - 1) (view m.scope s)
              (All-filter (λ x. IsCompact x.value) (in_scope m.scope) s.rows h.compact)))))

-- A write to the memory of a scope.
pub record Write : Type 0 where
  pub scope : MemoryScope
  pub kind : MemoryKind
  pub summary : String
  pub symbol : String
  pub clock : Datetime

module _ (limits : MemoryScope → ℕ) where
  abbrev pub memory_of : MemoryScope → ScopedMemory
  memory_of scope = record { scope = scope; keep_last = limits scope }

  abbrev pub write : Write → Store → Store
  write w s = (append_row (memory_of w.scope) w.kind w.summary w.symbol w.clock s).1

  abbrev pub write_all : List Write → Store → Store
  write_all [] s = s
  write_all (w ∷ ws) s = write_all ws (write w s)

  -- A well-formed table with at most as many rows of each scope as its memory keeps.
  pub record IsBounded (s : Store) : Type 0 where
    pub table : IsTable s
    pub bounded : (scope : MemoryScope) → count_of_scope (memory_of scope) s ≤ limits scope

  -- The rows of each scope after a write that is stored.
  stored-bounded :
      (m : ScopedMemory) (r : MemoryRecord) (s t : Store) (scope : MemoryScope)
      → Windowed m r s t
      → m.keep_last ≡ limits m.scope
      → length (view scope s) ≤ limits scope
      → length (view scope t) ≤ limits scope
  stored-bounded m r s t scope w k b = elim (Bool-cases (scope_eq m.scope scope)) [
    | inl e ↦
        subst (λ x. length (view x t) ≤ limits x) (scope_eq_sound m.scope scope e)
          (rw (w.window, sym k) (length-take m.keep_last (row_of r s ∷ view m.scope s)))
    | inr e ↦ rw (w.others scope e) b
  ]

  write-IsBounded : (w : Write) (s : Store) → IsBounded s → IsBounded (write w s)
  unfolding count_of_scope count
  write-IsBounded w s h = elim (Bool-cases (is_blank (clip w.summary))) [
    | inl b ↦
        subst IsBounded
          (sym (append_row-refused (memory_of w.scope) w.kind w.summary w.symbol w.clock s b)) h
    | inr b ↦
        let (_, x) =
          append_row-Windowed (memory_of w.scope) w.kind w.summary w.symbol w.clock s h.table b in
        record {
          table = x.table;
          bounded = λ scope.
              stored-bounded (memory_of w.scope) _ s (write w s) scope x refl (h.bounded scope);
        }
  ]

  -- Any sequence of writes to the memories of the scopes keeps the table well formed, with at most as
  -- many rows of each scope as its memory keeps, if it was so before.
  pub write_all-IsBounded : (ws : List Write) (s : Store) → IsBounded s → IsBounded (write_all ws s)
  write_all-IsBounded [] s h = h
  write_all-IsBounded (w ∷ ws) s h = write_all-IsBounded ws (write w s) (write-IsBounded w s h)

  pub empty_store-IsBounded : IsBounded empty_store
  unfolding Descends count_of_scope count
  empty_store-IsBounded = record {
    table = record { descends = tt; compact = tt };
    bounded = λ scope. omega arith;
  }
