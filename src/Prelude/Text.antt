-- ===== src/Prelude/Text.antt =====
-- Python's `str` where the program compares, joins, strips and prints texts.
use Prim.Native.Nat.{ℕ, zero, suc, ◌≤◌, ◌+◌, ◌/◌, ◌%◌}
use Prim.Native.Char.{Char, code}
use Prim.Native.String.{String, ◌++◌}
use mathlib.Core.Path.{◌≡◌, refl}
use mathlib.Core.Logic.{◌↔◌, inl, inr}
use mathlib.Core.Bool.{Bool, true, false, ◌&&◌, ◌||◌}
use mathlib.Core.List.{List, [], ◌∷◌}
use native.Mathlib.Omega.{arith}
use text.Mathlib.Text
use text.Mathlib.TextEquality.{eq_iff}
use text.Mathlib.TextLemmas.{nil-append, cons-append}
use llm_mt5_agent.Prelude.Tests.{ltb, leb, ◌==◌, if◌then◌else◌, Bool-cases}

-- `s == t`
abbrev pub str_eq : String → String → Bool
str_eq = Text.◌==◌

pub str_eq_iff : (s t : String) → (str_eq s t ≡ true) ↔ (s ≡ t)
str_eq_iff = eq_iff

-- The characters that `str.strip` removes.
pub is_space : ℕ → Bool
is_space c =
    leb 9 c && leb c 13
    || leb 28 c && leb c 32
    || c == 0x85
    || c == 0xa0
    || c == 0x1680
    || leb 0x2000 c && leb c 0x200a
    || c == 0x2028
    || c == 0x2029
    || c == 0x202f
    || c == 0x205f
    || c == 0x3000

-- `not s.strip()`
unfoldable pub is_blank : String → Bool
unfolding is_space
is_blank String.[] = true
is_blank (String.◌∷◌ c s) = is_space (code c) && is_blank s

-- `text.lstrip()`, `text.rstrip()` and `text.strip()`
unfoldable pub lstrip : String → String
unfolding is_space
lstrip String.[] = ""
lstrip (String.◌∷◌ c s) = elim (is_space (code c)) [ true ↦ lstrip s | false ↦ String.◌∷◌ c s ]

unfoldable pub rstrip : String → String
unfolding is_space
rstrip String.[] = ""
rstrip (String.◌∷◌ c s) =
    let rest = rstrip s in if is_space (code c) && str_eq rest "" then "" else String.◌∷◌ c rest

unfoldable pub strip : String → String
unfolding lstrip rstrip
strip s = rstrip (lstrip s)

-- `text.split()`, where `word` is what was read of the current word
split_from : String → String → List String
unfolding is_space
split_from word String.[] = if str_eq word "" then [] else word ∷ []
split_from word (String.◌∷◌ c s) = elim (is_space (code c)) [
  | true ↦ if str_eq word "" then split_from "" s else word ∷ split_from "" s
  | false ↦ split_from (word ++ String.◌∷◌ c "") s
]

unfoldable pub split : String → List String
unfolding split_from
split = split_from ""

-- `len(text)`
unfoldable pub text_length : String → ℕ
text_length String.[] = 0
text_length (String.◌∷◌ c s) = suc (text_length s)

-- `text[:n]`
unfoldable pub take_chars : ℕ → String → String
take_chars zero s = ""
take_chars (suc n) String.[] = ""
take_chars (suc n) (String.◌∷◌ c s) = String.◌∷◌ c (take_chars n s)

-- `text.startswith(part)`
unfoldable pub starts_with : String → String → Bool
starts_with String.[] t = true
starts_with (String.◌∷◌ c s) String.[] = false
starts_with (String.◌∷◌ c s) (String.◌∷◌ d t) = code c == code d && starts_with s t

-- `part in text`
unfoldable pub occurs_in : String → String → Bool
occurs_in part String.[] = starts_with part ""
occurs_in part (String.◌∷◌ c s) = starts_with part (String.◌∷◌ c s) || occurs_in part s

-- `sep.join(parts)`
unfoldable pub join : String → List String → String
join sep [] = ""
join sep (x ∷ []) = x
join sep (x ∷ y ∷ xs) = x ++ (sep ++ join sep (y ∷ xs))

digit : ℕ → String
digit zero = "0"
digit (suc zero) = "1"
digit (suc (suc zero)) = "2"
digit (suc (suc (suc zero))) = "3"
digit (suc (suc (suc (suc zero)))) = "4"
digit (suc (suc (suc (suc (suc zero))))) = "5"
digit (suc (suc (suc (suc (suc (suc zero)))))) = "6"
digit (suc (suc (suc (suc (suc (suc (suc zero))))))) = "7"
digit (suc (suc (suc (suc (suc (suc (suc (suc zero)))))))) = "8"
digit _ = "9"

digits_onto : ℕ → ℕ → String → String
digits_onto zero n rest = rest
digits_onto (suc fuel) n rest =
    let more = digits_onto fuel (n / 10) (digit (n % 10) ++ rest) in
    if ltb n 10 then digit n ++ rest else more

-- `str(n)` of an integer that is not negative: a number has at most as many digits as it counts.
unfoldable pub str_ℕ : ℕ → String
unfolding digit digits_onto
str_ℕ n = digits_onto (n + 1) n ""

str_ℕ-test : str_ℕ 9050 ≡ "9050"
unfolding str_ℕ
str_ℕ-test = refl

-- A text is blank if both halves are.
pub is_blank-append : (s t : String) → is_blank (s ++ t) ≡ (is_blank s && is_blank t)
unfolding is_blank
is_blank-append String.[] t = rw nil-append
is_blank-append (String.◌∷◌ c s) t = rw (cons-append c s t) (ground (arith, is_blank-append s t))

pub text_length-append : (s t : String) → text_length (s ++ t) ≡ text_length s + text_length t
unfolding text_length
text_length-append String.[] t = rw nil-append (omega arith)
text_length-append (String.◌∷◌ c s) t =
    rw (cons-append c s t) (omega (arith, text_length-append s t))

pub text_length-take_chars : (n : ℕ) (s : String) → text_length (take_chars n s) ≤ n
unfolding text_length take_chars
text_length-take_chars zero s = omega arith
text_length-take_chars (suc n) String.[] = omega arith
text_length-take_chars (suc n) (String.◌∷◌ c s) = omega (arith, text_length-take_chars n s)

rstrip-rstrip : (s : String) → rstrip (rstrip s) ≡ rstrip s
unfolding rstrip
rstrip-rstrip String.[] = refl
rstrip-rstrip (String.◌∷◌ c s) = elim (Bool-cases (is_space (code c) && str_eq (rstrip s) "")) [
  | inl e ↦ rw (e) refl
  | inr e ↦ rw (e, rstrip-rstrip s, e) refl
]

lstrip-space :
    (c : Char) (s : String) → is_space (code c) ≡ true → lstrip (String.◌∷◌ c s) ≡ lstrip s
unfolding lstrip
lstrip-space c s e = rw (e, lstrip) refl

lstrip-other :
    (c : Char) (s : String) → is_space (code c) ≡ false → lstrip (String.◌∷◌ c s) ≡ String.◌∷◌ c s
unfolding lstrip
lstrip-other c s e = rw (e, lstrip) refl

rstrip-other :
    (c : Char) (s : String)
    → is_space (code c) ≡ false
    → rstrip (String.◌∷◌ c s) ≡ String.◌∷◌ c (rstrip s)
unfolding rstrip
rstrip-other c s e = rw e refl

lstrip-strip : (s : String) → lstrip (rstrip (lstrip s)) ≡ rstrip (lstrip s)
unfolding lstrip rstrip
lstrip-strip String.[] = refl
lstrip-strip (String.◌∷◌ c s) = elim (Bool-cases (is_space (code c))) [
  | inl e ↦ rw (lstrip-space c s e) (lstrip-strip s)
  | inr e ↦ rw (lstrip-other c s e, rstrip-other c s e) (lstrip-other c (rstrip s) e)
]

-- Stripping a text again changes nothing.
pub strip-strip : (s : String) → strip (strip s) ≡ strip s
unfolding strip
strip-strip s = rw (lstrip-strip s) (rstrip-rstrip (lstrip s))
