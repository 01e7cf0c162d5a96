-- ===== src/Application/Watchdog/Streaks.antt =====
-- mt5_agent/application/watchdog.py: when the watchdog halts, by the history of its notes.
use llm_mt5_agent.Prelude.{
  subst, ℕ, ◌+◌, ◌≤◌, ◌≡◌, refl, sym, ◌∙◌, ap, String, str_eq, str_eq_iff, Bool, true, false, not,
  ◌&&◌, ◌||◌, Option, none, some, List, [], ◌∷◌, leb, is_none, if◌then◌else◌, Bool-cases, inl, inr,
  arith,
}
use llm_mt5_agent.Python.Float.{Float, Datetime}
use llm_mt5_agent.Application.Health.{healthy, degraded, health_eq, unhealthy}
use llm_mt5_agent.Application.Watchdog.{
  WatchdogConfig, Counters, count_of, set_count, Watchdog, new_watchdog, note_success, note_failure,
  note_observation, reset, any_over, status, should_halt,
}

-- The calls that change a watchdog.
pub data Note : Type 0 where
  succeeded : String → Note
  failed_at : String → String → Datetime → Note
  observed : Option Datetime → Datetime → Note
  reviewed : Note

module _ {F : Type 0} where
  abbrev pub apply : Watchdog F → Note → Watchdog F
  apply w (succeeded kind) = note_success w kind
  apply w (failed_at kind error clock) = note_failure w kind error clock
  apply w (observed at clock) = note_observation w at clock
  apply w reviewed = reset w

  -- The watchdog after some calls, the latest first.
  unfoldable pub after : WatchdogConfig F → List Note → Watchdog F
  after config [] = new_watchdog config
  after config (n ∷ notes) = apply (after config notes) n

-- The failures of a kind since its last success or the last review, from the latest call back.
unfoldable pub streak : String → List Note → ℕ
streak kind [] = 0
streak kind (succeeded k ∷ notes) = if str_eq k kind then 0 else streak kind notes
streak kind (failed_at k _ _ ∷ notes) =
    if str_eq k kind then streak kind notes + 1 else streak kind notes
streak kind (observed _ _ ∷ notes) = streak kind notes
streak kind (reviewed ∷ notes) = 0

-- Since the last review, some failure made a streak of the limit or more.
unfoldable pub has_streak : ℕ → List Note → Bool
has_streak limit [] = false
has_streak limit (succeeded _ ∷ notes) = has_streak limit notes
has_streak limit (failed_at kind error clock ∷ notes) =
    leb limit (streak kind (failed_at kind error clock ∷ notes)) || has_streak limit notes
has_streak limit (observed _ _ ∷ notes) = has_streak limit notes
has_streak limit (reviewed ∷ notes) = false

if-twice :
    {A : Type 0} (b : Bool) (x y z : A)
    → (if b then x else z) ≡ (if b then x else (if b then y else z))
if-twice true x y z = refl
if-twice false x y z = refl

pub count-set :
    (counters : Counters) (kind k : String) (value : ℕ)
    → count_of (set_count counters kind value) k
      ≡ (if str_eq kind k then value else count_of counters k)
unfolding count_of set_count
count-set [] kind k value = refl
count-set ((j, n) ∷ rest) kind k value = elim (Bool-cases (str_eq j kind)) [
  | inl e ↦
      let same = subst (λ x. str_eq x k ≡ str_eq kind k) (sym ((str_eq_iff j kind).0 e)) refl in
      rw (e, count_of, same) (if-twice (str_eq kind k) value n (count_of rest k))
  | inr e ↦ elim (Bool-cases (str_eq kind k)) [
    | inl f ↦
        rw
          (
            e,
            count_of,
            f,
            subst (λ x. str_eq j x ≡ false) ((str_eq_iff kind k).0 f) e,
            count-set rest kind k value,
            f,
          )
          refl
    | inr f ↦ rw (e, count_of, f, count-set rest kind k value, f) refl
  ]
]

over-set :
    (limit : ℕ) (counters : Counters) (kind : String) (value : ℕ)
    → leb limit value ≡ false
    → any_over limit counters ≡ false
    → any_over limit (set_count counters kind value) ≡ false
unfolding any_over set_count
over-set limit [] kind value h k = rw h refl
over-set limit ((j, n) ∷ rest) kind value h k = ground (arith, over-set limit rest kind value h)

counted : (kind : String) → count_of [] kind ≡ 0
unfolding count_of
counted kind = refl

-- A failure of a kind counts on its own streak.
streak-step :
    (k kind : String) (notes : List Note)
    → (if str_eq k kind then streak k notes + 1 else streak kind notes)
      ≡ (if str_eq k kind then streak kind notes + 1 else streak kind notes)
streak-step k kind notes = elim (Bool-cases (str_eq k kind)) [
  | inl e ↦ rw e (ap (λ x. streak x notes + 1) ((str_eq_iff k kind).0 e))
  | inr e ↦ rw e refl
]

-- A trip stays, and a failure at the limit makes one.
latch :
    (b : Bool) (o : Option Datetime) (c : Datetime)
    → not (is_none (if b && is_none o then some c else o)) ≡ (b || not (is_none o))
latch true none c = refl
latch true (some t) c = refl
latch false o c = refl

pub graded : (b : Bool) → health_eq (if b then degraded else healthy) unhealthy ≡ false
graded true = refl
graded false = refl

first-false : (a b : Bool) → (a || b) ≡ false → a ≡ false
first-false a b h = ground arith

second-false : (a b : Bool) → (a || b) ≡ false → b ≡ false
second-false a b h = ground arith

module _ {F : Type 0} (config : WatchdogConfig F) where
  abbrev limit : ℕ
  limit = config.max_consecutive_failures

  after-config : (notes : List Note) → (after config notes).config ≡ config
  unfolding after note_success note_failure note_observation reset new_watchdog
  after-config [] = refl
  after-config (succeeded k ∷ notes) = after-config notes
  after-config (failed_at k e c ∷ notes) = after-config notes
  after-config (observed a c ∷ notes) = after-config notes
  after-config (reviewed ∷ notes) = after-config notes

  count-streak :
      (notes : List Note) (kind : String)
      → count_of (after config notes).consecutive kind ≡ streak kind notes
  unfolding after note_success note_failure note_observation reset new_watchdog streak
  count-streak [] kind = counted kind
  count-streak (succeeded k ∷ notes) kind =
      count-set (after config notes).consecutive k kind 0 ∙ rw (count-streak notes kind) refl
  count-streak (failed_at k e c ∷ notes) kind =
      count-set (after config notes).consecutive k kind
        (count_of (after config notes).consecutive k + 1)
      ∙ rw (count-streak notes kind, count-streak notes k) (streak-step k kind notes)
  count-streak (observed a c ∷ notes) kind = count-streak notes kind
  count-streak (reviewed ∷ notes) kind = counted kind

  tripped-streak :
      (notes : List Note) → not (is_none (after config notes).tripped_at) ≡ has_streak limit notes
  unfolding after note_success note_failure note_observation reset new_watchdog has_streak streak
  tripped-streak [] = refl
  tripped-streak (succeeded k ∷ notes) = tripped-streak notes
  tripped-streak (failed_at k e c ∷ notes) =
      rw (after-config notes, count-streak notes k, (str_eq_iff k k).1 refl)
        (latch (leb limit (streak k notes + 1)) (after config notes).tripped_at c
          ∙ rw (tripped-streak notes) refl)
  tripped-streak (observed a c ∷ notes) = tripped-streak notes
  tripped-streak (reviewed ∷ notes) = refl

  settled :
      (notes : List Note)
      → 1 ≤ limit
      → has_streak limit notes ≡ false
      → any_over limit (after config notes).consecutive ≡ false
  unfolding after note_success note_failure note_observation reset new_watchdog has_streak streak
      any_over
  settled [] l h = refl
  settled (succeeded k ∷ notes) l h =
      over-set limit (after config notes).consecutive k 0 (ground arith) (settled notes l h)
  settled (failed_at k e c ∷ notes) l h =
      over-set limit (after config notes).consecutive k _
        (rw (count-streak notes k) (first-false _ _ (rw ((str_eq_iff k k).1 refl) at h)))
        (settled notes l (second-false _ _ h))
  settled (observed a c ∷ notes) l h = settled notes l h
  settled (reviewed ∷ notes) l h = refl

  -- For a limit of at least one, after any notes since the start, at any time, the watchdog tells the
  -- agent to halt exactly if, since the last operator's reset, some failure made as many failures of
  -- its kind in a row as the limit: a success of that kind afterwards does not clear it.
  pub should_halt-has_streak :
      ⦃fl : Float F⦄ (notes : List Note) (now : Datetime)
      → 1 ≤ limit
      → should_halt (after config notes) now ≡ has_streak limit notes
  unfolding should_halt status
  should_halt-has_streak notes now l = elim (Bool-cases (has_streak limit notes)) [
    | inl h ↦ rw (tripped-streak notes, h) refl
    | inr h ↦ rw (tripped-streak notes, h, after-config notes, settled notes l h) (graded _)
  ]
