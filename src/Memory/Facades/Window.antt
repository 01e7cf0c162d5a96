-- ===== src/Memory/Facades/Window.antt =====
-- mt5_agent/memory/memories.py over sqlite_store.py: a scoped memory is a rolling window.
use llm_mt5_agent.Prelude.{
  leb, Bool-cases, if-cases, take, filter, is_blank, split, text_length, take_chars, join,
  text_length-append, text_length-take_chars, ℕ, ◌-◌, ◌≤◌, String, ◌≡◌, refl, sym, subst, ◌∙◌, inl,
  inr, true, false, none, List, [], ◌∷◌, arith,
}
use llm_mt5_agent.Python.Bind.{◌>>=◌}
use llm_mt5_agent.Python.Errors.{value_error, ok, raise}
use llm_mt5_agent.Python.Float.{Datetime}
use llm_mt5_agent.Domain.Memory.{
  MemoryScope, scope_eq, MemoryKind, max_summary_len, MemoryRecord, new_memory_record,
}
use llm_mt5_agent.Memory.Store.{Row, Store, append, in_scope, kept_ids, member, kept, prune}
use llm_mt5_agent.Memory.Store.Queue.{
  view, Descends, IsCompact, IsTable, All-filter, Descends-filter, view-prune,
}
use llm_mt5_agent.Memory.Facades.{clip, ScopedMemory, new_row, stored, append_made, append_row}

pub scope_eq_sound : (a b : MemoryScope) → scope_eq a b ≡ true → a ≡ b
scope_eq_sound MemoryScope.short_term MemoryScope.short_term h = refl
scope_eq_sound MemoryScope.trade MemoryScope.trade h = refl
scope_eq_sound MemoryScope.world MemoryScope.world h = refl
scope_eq_sound MemoryScope.strategy MemoryScope.strategy h = refl
scope_eq_sound _ _ h = cc

scope_eq_refl : (a : MemoryScope) → scope_eq a a ≡ true
scope_eq_refl MemoryScope.short_term = refl
scope_eq_refl MemoryScope.trade = refl
scope_eq_refl MemoryScope.world = refl
scope_eq_refl MemoryScope.strategy = refl

-- A row of one scope is in no other.
other_scope :
    (scope another : MemoryScope) (r : Row)
    → scope_eq scope another ≡ false
    → in_scope scope r ≡ true
    → in_scope another r ≡ false
unfolding in_scope
other_scope scope another r n h = elim (Bool-cases (scope_eq r.value.scope another)) [
  | inl k ↦
      let same : scope ≡ another =
        sym (scope_eq_sound r.value.scope scope h) ∙ scope_eq_sound r.value.scope another k in
      absurd (cc (n, subst (λ x. scope_eq scope x ≡ true) same (scope_eq_refl scope)))
  | inr k ↦ k
]

filter-kept_other :
    (scope another : MemoryScope) (ids : List ℕ) (rows : List Row)
    → scope_eq scope another ≡ false
    → filter (in_scope another) (filter (kept scope ids) rows) ≡ filter (in_scope another) rows
unfolding kept
filter-kept_other scope another ids [] n = refl
filter-kept_other scope another ids (r ∷ rest) n = elim (Bool-cases (in_scope scope r)) [
  | inl e ↦ elim (Bool-cases (member r.id ids)) [
    | inl k ↦ rw (e, k, filter-kept_other scope another ids rest n) refl
    | inr k ↦
        rw (e, k, other_scope scope another r n e, filter-kept_other scope another ids rest n) refl
  ]
  | inr e ↦ rw (e, filter-kept_other scope another ids rest n) refl
]

-- The table after `append`.
abbrev appended : MemoryRecord → Store → Store
appended r s = (append s r).0

appended-IsTable : (r : MemoryRecord) (s : Store) → IsTable s → IsCompact r → IsTable (appended r s)
unfolding append Descends
appended-IsTable r s h c = record { descends = (omega arith, h.descends); compact = (c, h.compact) }

prune-IsTable : (s : Store) (scope : MemoryScope) (k : ℕ) → IsTable s → IsTable (prune s scope k).0
unfolding prune
prune-IsTable s scope k h =
    let test = kept scope (kept_ids scope k s.rows) in
    record {
      descends = Descends-filter test s.next_id s.rows h.descends;
      compact = All-filter (λ x. IsCompact x.value) test s.rows h.compact;
    }

pub stored-IsTable :
    (m : ScopedMemory) (r : MemoryRecord) (s : Store)
    → IsTable s
    → IsCompact r
    → IsTable (stored m r s).0
unfolding stored
stored-IsTable m r s h c =
    prune-IsTable (appended r s) m.scope m.keep_last (appended-IsTable r s h c)

abbrev pub row_of : MemoryRecord → Store → Row
row_of r s = record { id = s.next_id; value = r }

mine_lem :
    (m : ScopedMemory) (r : MemoryRecord) (s : Store)
    → r.scope ≡ m.scope
    → in_scope m.scope (row_of r s) ≡ true
unfolding in_scope
mine_lem m r s e = rw e (scope_eq_refl m.scope)

view-stored :
    (m : ScopedMemory) (r : MemoryRecord) (s : Store)
    → IsTable s
    → IsCompact r
    → r.scope ≡ m.scope
    → view m.scope (stored m r s).0 ≡ take m.keep_last (row_of r s ∷ view m.scope s)
unfolding stored append
view-stored m r s h c e =
    let mine : in_scope m.scope (row_of r s) ≡ true = mine_lem m r s e in
    view-prune (appended r s) m.scope m.keep_last (appended-IsTable r s h c) ∙ rw mine refl

view-stored_other :
    (m : ScopedMemory) (r : MemoryRecord) (s : Store) (another : MemoryScope)
    → scope_eq m.scope another ≡ false
    → r.scope ≡ m.scope
    → view another (stored m r s).0 ≡ view another s
unfolding stored append prune
view-stored_other m r s another n e =
    let mine : in_scope m.scope (row_of r s) ≡ true = mine_lem m r s e in
    filter-kept_other m.scope another (kept_ids m.scope m.keep_last (row_of r s ∷ s.rows))
      (row_of r s ∷ s.rows) n
    ∙ rw (other_scope m.scope another (row_of r s) n mine) refl

-- The record that a write makes.
abbrev pub compact_row : ScopedMemory → MemoryKind → String → String → Datetime → MemoryRecord
compact_row m kind summary symbol clock = record {
  scope = m.scope;
  kind = kind;
  summary = clip summary;
  symbol = symbol;
  created_at = clock;
  record_id = none;
}

-- A clipped text has at most 280 characters.
text_length-clip : (text : String) → text_length (clip text) ≤ max_summary_len
unfolding clip text_length
text_length-clip text =
    let squeezed = join " " (split text) in
    if-cases (leb (text_length squeezed) max_summary_len) (λ s. text_length s ≤ max_summary_len)
      (λ _. text_length-take_chars max_summary_len squeezed)
      (λ _.
        rw (text_length-append (take_chars (max_summary_len - 1) squeezed) "…")
          (omega (arith, text_length-take_chars (max_summary_len - 1) squeezed)))

pub new_memory_record-ok : (r : MemoryRecord) → IsCompact r → new_memory_record r ≡ ok r
unfolding new_memory_record ◌>>=◌
new_memory_record-ok r (b, l) = rw (b, l) refl

pub clip-IsCompact :
    (m : ScopedMemory) (kind : MemoryKind) (summary symbol : String) (clock : Datetime)
    → is_blank (clip summary) ≡ false
    → IsCompact (compact_row m kind summary symbol clock)
clip-IsCompact m kind summary symbol clock b =
    let short = text_length-clip summary in (b, ground arith)

new_row-ok :
    (m : ScopedMemory) (kind : MemoryKind) (summary symbol : String) (clock : Datetime)
    → is_blank (clip summary) ≡ false
    → new_row m kind summary symbol clock ≡ ok (compact_row m kind summary symbol clock)
unfolding new_row
new_row-ok m kind summary symbol clock b =
    new_memory_record-ok (compact_row m kind summary symbol clock)
      (clip-IsCompact m kind summary symbol clock b)

-- A text of nothing but spaces is refused, and the table stays as it is.
new_row-refused :
    (m : ScopedMemory) (kind : MemoryKind) (summary symbol : String) (clock : Datetime)
    → is_blank (clip summary) ≡ true
    → new_row m kind summary symbol clock
      ≡ raise (record { class = value_error; message = "summary must be non-empty" })
unfolding new_row new_memory_record ◌>>=◌
new_row-refused m kind summary symbol clock b = rw b refl

pub append_row-refused :
    (m : ScopedMemory) (kind : MemoryKind) (summary symbol : String) (clock : Datetime) (s : Store)
    → is_blank (clip summary) ≡ true
    → (append_row m kind summary symbol clock s).1 ≡ s
unfolding append_row append_made
append_row-refused m kind summary symbol clock s b =
    rw (new_row-refused m kind summary symbol clock b) refl

append_row-stored :
    (m : ScopedMemory) (kind : MemoryKind) (summary symbol : String) (clock : Datetime) (s : Store)
    → is_blank (clip summary) ≡ false
    → append_row m kind summary symbol clock s ≡ (
      ok (stored m (compact_row m kind summary symbol clock) s).1,
      (stored m (compact_row m kind summary symbol clock) s).0,
    )
unfolding append_row append_made
append_row-stored m kind summary symbol clock s b =
    rw (new_row-ok m kind summary symbol clock b) refl

stored_id : (m : ScopedMemory) (r : MemoryRecord) (s : Store) → ok (stored m r s).1 ≡ ok s.next_id
unfolding stored append
stored_id m r s = refl

-- What a write leaves: the row with the next id at the head of its scope's window, which has at most
-- `keep_last` rows, and the windows of the other scopes as they were.
pub record Windowed (m : ScopedMemory) (r : MemoryRecord) (s t : Store) : Type 0 where
  pub table : IsTable t
  pub window : view m.scope t ≡ take m.keep_last (row_of r s ∷ view m.scope s)
  pub others :
      (another : MemoryScope) → scope_eq m.scope another ≡ false → view another t ≡ view another s

-- A write of a text that is not blank once it is clipped never raises: it answers the next id, and the
-- table then has the clipped record, of at most 280 characters, at the head of its scope's window,
-- the window cut to `keep_last` rows, the other scopes untouched, and it is well formed again.
-- The table is well formed before.
pub append_row-Windowed :
    (m : ScopedMemory) (kind : MemoryKind) (summary symbol : String) (clock : Datetime) (s : Store)
    → IsTable s
    → is_blank (clip summary) ≡ false
    → ((append_row m kind summary symbol clock s).0 ≡ ok s.next_id)
      × Windowed m
          (compact_row m kind summary symbol clock)
          s
          (append_row m kind summary symbol clock s).1
append_row-Windowed m kind summary symbol clock s h b =
    let r = compact_row m kind summary symbol clock in
    let c = clip-IsCompact m kind summary symbol clock b in
    rw (append_row-stored m kind summary symbol clock s b) (
      stored_id m r s,
      record {
        table = stored-IsTable m r s h c;
        window = view-stored m r s h c refl;
        others = λ another n. view-stored_other m r s another n refl;
      },
    )
