-- ===== src/Prelude/Tests.antt =====
-- Boolean tests, the conditional, and splits on computed values.
use Prim.Native.Nat.{ℕ, ◌≤◌, compare, Ordering}
use mathlib.Core.Path.{◌≡◌, refl}
use mathlib.Core.Logic.{◌⊎◌, ◌↔◌, inl, inr}
use mathlib.Core.Bool.{Bool, true, false, not, ◌||◌}
use mathlib.Core.Option.{Option, none, some}
use native.Mathlib.Omega.{arith}

abbrev pub ltb : ℕ → ℕ → Bool
ltb a b = elim (compare a b) [ Ordering.lt ↦ true | _ ↦ false ]

abbrev pub leb : ℕ → ℕ → Bool
leb a b = elim (compare a b) [ Ordering.gt ↦ false | _ ↦ true ]

infix 50 ◌==◌
abbrev pub ◌==◌ : ℕ → ℕ → Bool
a == b = elim (compare a b) [ Ordering.eq ↦ true | _ ↦ false ]

infix 1 if◌then◌else◌
abbrev pub if◌then◌else◌ {ℓ} : {A : Type ℓ} → Bool → A → A → A
if true then x else y = x
if false then x else y = y

pub leb→le : (a b : ℕ) → leb a b ≡ true → a ≤ b
leb→le a b h = ground arith

pub le→leb : (a b : ℕ) → a ≤ b → leb a b ≡ true
le→leb a b h = ground arith

-- To split on a computed value and keep the equation.
pub Bool-cases : (b : Bool) → (b ≡ true) ⊎ (b ≡ false)
Bool-cases true = inl refl
Bool-cases false = inr refl

pub Option-cases {ℓ} : {A : Type ℓ} (o : Option A) → (o ≡ none) ⊎ ((a : A) × (o ≡ some a))
Option-cases none = inl refl
Option-cases (some a) = inr (a, refl)

-- `x is None`
abbrev pub is_none {ℓ} : {A : Type ℓ} → Option A → Bool
is_none none = true
is_none (some _) = false

pub not-eq-false : (b : Bool) → not b ≡ false → b ≡ true
not-eq-false b h = ground arith

pub true-of_not-eq-false : (b : Bool) → b ≡ true → not b ≡ false
true-of_not-eq-false b h = ground arith

-- A test that decides `P` also decides its negation.
pub eq-false_iff : (b : Bool) {P : Type 0} → (b ≡ true) ↔ P → (b ≡ false) ↔ ¬ P
eq-false_iff true h = (λ e. cc, λ n. absurd (n (h.0 refl)))
eq-false_iff false h = ((λ _ p. cc (h.1 p)), λ _. refl)

pub or_iff :
    (a b : Bool) {P Q : Type 0} → (a ≡ true) ↔ P → (b ≡ true) ↔ Q → ((a || b) ≡ true) ↔ (P ⊎ Q)
or_iff true b h k = (λ _. inl (h.0 refl), λ _. refl)
or_iff false true h k = (λ _. inr (k.0 refl), λ _. refl)
or_iff false false {P} {Q} h k = (λ e. cc, go)
  where
    go : P ⊎ Q → false ≡ true
    go (inl p) = h.1 p
    go (inr q) = k.1 q

-- A loop invariant of the form "found before, or in the rest".
pub ⊎-regroup : {A B C D E : Type 0} → A ↔ (B ⊎ C) → D ↔ (A ⊎ E) → D ↔ (B ⊎ (C ⊎ E))
⊎-regroup {A} {B} {C} {D} {E} h k = (λ d. forth (k.0 d), back)
  where
    split : B ⊎ C → B ⊎ (C ⊎ E)
    split (inl b) = inl b
    split (inr c) = inr (inl c)

    forth : A ⊎ E → B ⊎ (C ⊎ E)
    forth (inl a) = split (h.0 a)
    forth (inr e) = inr (inr e)

    back : B ⊎ (C ⊎ E) → D
    back (inl b) = k.1 (inl (h.1 (inl b)))
    back (inr (inl c)) = k.1 (inl (h.1 (inr c)))
    back (inr (inr e)) = k.1 (inr e)

pub ×-iff_left : {A B C : Type 0} → A ↔ B → (A × C) ↔ (B × C)
×-iff_left h = (λ (a, c). (h.0 a, c), λ (b, c). (h.1 b, c))

pub ¬-iff : {A B : Type 0} → A ↔ B → (¬ A) ↔ (¬ B)
¬-iff h = (λ n b. n (h.1 b), λ n a. n (h.0 a))

-- What holds of both branches, each under its condition.
pub if-cases {ℓ κ} :
    {A : Type ℓ} (b : Bool) (P : A → Type κ) {x y : A}
    → (b ≡ true → P x)
    → (b ≡ false → P y)
    → P (if b then x else y)
if-cases true P h k = h refl
if-cases false P h k = k refl
