-- ===== src/Memory/Store/Queue.antt =====
-- mt5_agent/memory/sqlite_store.py: the table as one bounded queue for each scope.
use llm_mt5_agent.Prelude.{
  ltb, ◌==◌, Bool-cases, if-cases, take, filter, All, is_blank, text_length, ℕ, zero, suc, ◌≤◌, ◌<◌,
  ◌≡◌, refl, ap, ◌∙◌, inl, inr, Bool, true, false, List, [], ◌∷◌, map, arith,
}
use llm_mt5_agent.Domain.Memory.{MemoryScope, max_summary_len, MemoryRecord}
use llm_mt5_agent.Memory.Store.{Row, Store, in_scope, kept_ids, member, kept, prune}

-- The rows of a scope, the newest first.
abbrev pub view : MemoryScope → Store → List Row
view scope s = filter (in_scope scope) s.rows

-- The ids fall from below a bound.
unfoldable pub Descends : ℕ → List Row → Type 0
Descends bound [] = Unit
Descends bound (r ∷ rest) = (r.id < bound) × Descends r.id rest

-- A text that the constructor of a record accepts.
abbrev pub IsCompact : MemoryRecord → Type 0
IsCompact r = (is_blank r.summary ≡ false) × (ltb max_summary_len (text_length r.summary) ≡ false)

-- What every operation preserves.
pub record IsTable (s : Store) : Type 0 where
  pub descends : Descends s.next_id s.rows
  pub compact : All (λ r. IsCompact r.value) s.rows

module _ {A : Type 0} where
  filter-cong : (p q : A → Bool) (xs : List A) → All (λ x. p x ≡ q x) xs → filter p xs ≡ filter q xs
  filter-cong p q [] h = refl
  filter-cong p q (x ∷ xs) (e, h) = rw (e, filter-cong p q xs h) refl

  filter-none : (xs : List A) → filter (λ _. false) xs ≡ []
  filter-none [] = refl
  filter-none (x ∷ xs) = filter-none xs

  pub All-filter : (P : A → Type 0) (p : A → Bool) (xs : List A) → All P xs → All P (filter p xs)
  All-filter P p [] h = tt
  All-filter P p (x ∷ xs) (e, h) =
      if-cases (p x) (All P) (λ _. (e, All-filter P p xs h)) (λ _. All-filter P p xs h)

Descends-weaken : (a b : ℕ) (rows : List Row) → a ≤ b → Descends a rows → Descends b rows
unfolding Descends
Descends-weaken a b [] le h = tt
Descends-weaken a b (r ∷ rest) le (lt, h) = (omega arith, h)

pub Descends-filter :
    (p : Row → Bool) (bound : ℕ) (rows : List Row)
    → Descends bound rows
    → Descends bound (filter p rows)
unfolding Descends
Descends-filter p bound [] h = tt
Descends-filter p bound (r ∷ rest) (lt, h) =
    if-cases (p r) (Descends bound) (λ _. (lt, Descends-filter p r.id rest h))
      (λ _.
        Descends-weaken r.id bound (filter p rest) (omega arith) (Descends-filter p r.id rest h))

Descends-All : (bound : ℕ) (rows : List Row) → Descends bound rows → All (λ r. r.id < bound) rows
unfolding Descends
Descends-All bound [] h = tt
Descends-All bound (r ∷ rest) (lt, h) =
    (lt, Descends-All bound rest (Descends-weaken r.id bound rest (omega arith) h))

-- Of rows with falling ids, those whose id is one of the first k are the first k.
other_ids :
    (i : ℕ) (ids : List ℕ) (rows : List Row)
    → All (λ r. r.id < i) rows
    → All (λ r. member r.id (i ∷ ids) ≡ member r.id ids) rows
other_ids i ids [] h = tt
other_ids i ids (r ∷ rest) (lt, h) = (ground arith, other_ids i ids rest h)

abbrev ids_of : List Row → List ℕ
ids_of rows = map (λ r. r.id) rows

filter-first :
    (k bound : ℕ) (rows : List Row)
    → Descends bound rows
    → filter (λ r. member r.id (ids_of (take k rows))) rows ≡ take k rows
unfolding Descends
filter-first zero bound rows h = filter-none rows
filter-first (suc k) bound [] h = refl
filter-first (suc k) bound (r ∷ rest) (lt, h) =
    let ids = ids_of (take k rest) in
    let hit : (r.id == r.id) ≡ true = ground arith in
    rw hit (
      ap (λ xs. r ∷ xs)
        (filter-cong (λ x. member x.id (r.id ∷ ids)) (λ x. member x.id ids) rest
            (other_ids r.id ids rest (Descends-All r.id rest h))
          ∙ filter-first k r.id rest h))

-- The rows of a scope that a deletion leaves are those whose id is kept.
filter-kept :
    (scope : MemoryScope) (ids : List ℕ) (rows : List Row)
    → filter (in_scope scope) (filter (kept scope ids) rows)
      ≡ filter (λ r. member r.id ids) (filter (in_scope scope) rows)
unfolding kept
filter-kept scope ids [] = refl
filter-kept scope ids (r ∷ rest) = elim (Bool-cases (in_scope scope r)) [
  | inl e ↦ elim (Bool-cases (member r.id ids)) [
    | inl k ↦ rw (e, k, e, filter-kept scope ids rest) refl
    | inr k ↦ rw (e, k, filter-kept scope ids rest) refl
  ]
  | inr e ↦ rw (e, e, filter-kept scope ids rest) refl
]

-- A deletion keeps the newest rows of its scope.
pub view-prune :
    (s : Store) (scope : MemoryScope) (k : ℕ)
    → IsTable s
    → view scope (prune s scope k).0 ≡ take k (view scope s)
unfolding prune kept_ids
view-prune s scope k h =
    filter-kept scope (kept_ids scope k s.rows) s.rows
    ∙ filter-first k s.next_id (view scope s)
        (Descends-filter (in_scope scope) s.next_id s.rows h.descends)
