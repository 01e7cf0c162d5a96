-- ===== src/Python/Decimal.antt =====
-- A concrete `Float` for tests: fixed-point decimals with five places, and NaN.
use llm_mt5_agent.Prelude.{
  refl, ◌≤◌, ◌&&◌, ℕ, zero, suc, ◌/◌, ◌≡◌, Bool, true, false, Option, none, some, List, [], ◌∷◌,
  String, ◌<>◌, ℤ, pos, negsuc, ◌+ℤ◌, ◌-ℤ◌, ◌*ℤ◌, ltb_ℤ, leb_ℤ, if◌then◌else◌, arith, str_ℕ, str_eq,
}
use llm_mt5_agent.Python.Float.{Float, IsOrdered, HasLiterals}

pub data Decimal : Type 0 where
  nan : Decimal
  units : ℤ → Decimal

-- Quotient of an integer by a natural number, towards zero.
abbrev quot : ℤ → ℕ → ℤ
quot (pos n) d = pos (n / d)
quot (negsuc n) d = pos 0 -ℤ pos ((suc n) / d)

abbrev lift : (ℤ → ℤ → ℤ) → Decimal → Decimal → Decimal
lift op (units a) (units b) = units (op a b)
lift op _ _ = nan

abbrev test : (ℤ → ℤ → Bool) → Decimal → Decimal → Bool
test op (units a) (units b) = op a b
test op _ _ = false

abbrev is_zero : ℤ → Bool
is_zero (pos zero) = true
is_zero _ = false

abbrev divide : Decimal → Decimal → Decimal
divide (units a) (units (pos n)) = units (quot (a *ℤ pos 100_000) n)
divide (units a) (units (negsuc n)) = units (quot (pos 0 -ℤ a *ℤ pos 100_000) (suc n))
divide _ _ = nan

abbrev plus : Decimal → Decimal → Decimal
plus = lift ◌+ℤ◌

abbrev times : Decimal → Decimal → Decimal
times = lift (λ a b. quot (a *ℤ b) 100_000)

abbrev power : Decimal → ℕ → Decimal
power x zero = units (pos 100_000)
power x (suc n) = times (power x n) x

abbrev total : List Decimal → Decimal
total [] = units (pos 0)
total (x ∷ xs) = plus x (total xs)

abbrev show : Decimal → String
show nan = "nan"
show (units (pos n)) = str_ℕ n <> "e-5"
show (units (negsuc n)) = "-" <> str_ℕ (suc n) <> "e-5"

-- Only "nan" is read.
abbrev read : String → Option Decimal
read s = if str_eq s "nan" then some nan else none

instance abbrev pub decimal : Float Decimal
decimal = record {
  lt = test ltb_ℤ;
  le = test leb_ℤ;
  eq = test (λ a b. is_zero (a -ℤ b));
  add = plus;
  sub = lift ◌-ℤ◌;
  mul = times;
  div = divide;
  neg = lift ◌-ℤ◌ (units (pos 0));
  abs = λ x. if test ltb_ℤ x (units (pos 0)) then lift ◌-ℤ◌ (units (pos 0)) x else x;
  pow = power;
  sum = total;
  of_int = λ n. units (n *ℤ pos 100_000);
  true_div = λ m n. units (quot (m *ℤ pos 100_000) n);
  str = show;
  fixed = λ _. show;
  parse = read;
}

lt_trans_lem :
    (a b c : Decimal) → decimal.lt a b ≡ true → decimal.lt b c ≡ true → decimal.lt a c ≡ true
lt_trans_lem nan b c h k = cc
lt_trans_lem (units a) nan c h k = cc
lt_trans_lem (units a) (units b) nan h k = cc
lt_trans_lem (units a) (units b) (units c) h k = ground arith

lt_of_le_lem :
    (a b c : Decimal) → decimal.le a b ≡ true → decimal.lt b c ≡ true → decimal.lt a c ≡ true
lt_of_le_lem nan b c h k = cc
lt_of_le_lem (units a) nan c h k = cc
lt_of_le_lem (units a) (units b) nan h k = cc
lt_of_le_lem (units a) (units b) (units c) h k = ground arith

lt_of_lt_lem :
    (a b c : Decimal) → decimal.lt a b ≡ true → decimal.le b c ≡ true → decimal.lt a c ≡ true
lt_of_lt_lem nan b c h k = cc
lt_of_lt_lem (units a) nan c h k = cc
lt_of_lt_lem (units a) (units b) nan h k = cc
lt_of_lt_lem (units a) (units b) (units c) h k = ground arith

le_of_not_lt_lem :
    (a b c : Decimal)
    → decimal.le c a ≡ true
    → decimal.le c b ≡ true
    → decimal.lt a b ≡ false
    → decimal.le b a ≡ true
le_of_not_lt_lem a b nan h k l = cc
le_of_not_lt_lem nan b (units c) h k l = cc
le_of_not_lt_lem (units a) nan (units c) h k l = cc
le_of_not_lt_lem (units a) (units b) (units c) h k l = ground arith

pub decimal-IsOrdered : IsOrdered decimal
decimal-IsOrdered = record {
  lt_of_le = lt_of_le_lem;
  lt_of_lt = lt_of_lt_lem;
  lt_trans = lt_trans_lem;
  le_of_not_lt = le_of_not_lt_lem;
}

le_lit_lem :
    (m n : ℕ)
    → m ≤ n
    → n ≤ 100
    → decimal.le (decimal.of_int (pos m)) (decimal.of_int (pos n)) ≡ true
unfolding ◌*ℤ◌
le_lit_lem m n h k = ground arith

fifth_lem :
    (decimal.le (decimal.of_int (pos 0)) (decimal.true_div (pos 2) 10)
      && decimal.le (decimal.true_div (pos 2) 10) (decimal.of_int (pos 2)))
    ≡ true
unfolding ◌*ℤ◌
fifth_lem = refl

pub decimal-HasLiterals : HasLiterals decimal
decimal-HasLiterals = record { le_lit = le_lit_lem; fifth = fifth_lem }
