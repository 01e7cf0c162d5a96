-- ===== src/Python/Float.antt =====
-- Python's `float` as an interface. The definitions of the program take the carrier and its
-- operations as an instance, so that what is proved holds of IEEE doubles, NaN and rounding
-- included; a law that a theorem needs is a hypothesis of it.
use llm_mt5_agent.Prelude.{
  ℕ, ◌/◌, ◌%◌, ◌≤◌, ◌&&◌, ◌≡◌, Bool, true, false, Option, none, some, List, String, ℤ, pos, sub_ℕ,
  if◌then◌else◌,
}

pub record Float (F : Type 0) : Type 0 where
  pub lt : F → F → Bool
  pub le : F → F → Bool
  pub eq : F → F → Bool
  pub add : F → F → F
  pub sub : F → F → F
  pub mul : F → F → F
  pub div : F → F → F
  pub neg : F → F
  pub abs : F → F
  pub pow : F → ℕ → F
  -- the builtin `sum` over floats, which compensates rounding since Python 3.12
  pub sum : List F → F
  -- an `int` where a `float` is expected
  pub of_int : ℤ → F
  -- `m / n` of two `int`s
  pub true_div : ℤ → ℕ → F
  -- `f"{x}"` and `f"{x:.nf}"`
  pub str : F → String
  pub fixed : ℕ → F → String
  -- `float(text)`, `none` where it raises
  pub parse : String → Option F

-- Comparisons and arithmetic as the program writes them.
module _ {F : Type 0} ⦃fl : Float F⦄ where
  infix 50 ◌<?◌ ◌≤?◌
  abbrev pub ◌<?◌ : F → F → Bool
  ◌<?◌ = fl.lt

  abbrev pub ◌≤?◌ : F → F → Bool
  ◌≤?◌ = fl.le

  -- the literal `n` or `n.0`
  abbrev pub lit : ℕ → F
  lit n = fl.of_int (pos n)

  -- `x or default` for `x : float | None`: `None` and zero are falsy, NaN is not
  unfoldable pub or_else : Option F → F → F
  or_else none default = default
  or_else (some x) default = if fl.eq x (lit 0) then default else x

-- An aware `datetime`, as microseconds of UTC since 0001-01-01.
abbrev pub Datetime : Type 0
Datetime = ℕ

-- `moment.hour`
unfoldable pub hour_of : Datetime → ℕ
hour_of t = (t / 3_600_000_000) % 24

-- `(now - at).total_seconds()`
unfoldable pub total_seconds : {F : Type 0} ⦃fl : Float F⦄ → Datetime → Datetime → F
total_seconds ⦃fl⦄ now at = fl.true_div (sub_ℕ now at) 1_000_000

-- What IEEE 754 says of `<` and `<=`, for the theorems that chain comparisons.
pub record IsOrdered {F : Type 0} (fl : Float F) : Type 0 where
  pub lt_of_le : (a b c : F) → fl.le a b ≡ true → fl.lt b c ≡ true → fl.lt a c ≡ true
  pub lt_of_lt : (a b c : F) → fl.lt a b ≡ true → fl.le b c ≡ true → fl.lt a c ≡ true
  pub lt_trans : (a b c : F) → fl.lt a b ≡ true → fl.lt b c ≡ true → fl.lt a c ≡ true
  -- two values that are at least `c` are no NaN, so one is at most the other
  pub le_of_not_lt :
      (a b c : F) → fl.le c a ≡ true → fl.le c b ≡ true → fl.lt a b ≡ false → fl.le b a ≡ true

-- The numbers 0 to 100 are ordered as floats, and 0.2 is between 0 and 2.
pub record HasLiterals {F : Type 0} (fl : Float F) : Type 0 where
  pub le_lit : (m n : ℕ) → m ≤ n → n ≤ 100 → fl.le (fl.of_int (pos m)) (fl.of_int (pos n)) ≡ true
  pub fifth :
      (fl.le (fl.of_int (pos 0)) (fl.true_div (pos 2) 10)
        && fl.le (fl.true_div (pos 2) 10) (fl.of_int (pos 2)))
      ≡ true
