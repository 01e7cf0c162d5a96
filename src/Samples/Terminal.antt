-- ===== src/Samples/Terminal.antt =====
-- Conversions of values that raise what Python documents.
use llm_mt5_agent.Prelude.{if◌then◌else◌, ℕ, String, ◌≡◌, refl, ◌⊎◌, inl, inr, true}
use llm_mt5_agent.Python.Bind.{Ensures}
use llm_mt5_agent.Python.Errors.{
  ExceptionClass, value_error, type_error, is_conversion_error, Result, ok, raise,
}
use llm_mt5_agent.Python.Float.{lit}
use llm_mt5_agent.Python.Decimal.{Decimal, decimal}
use llm_mt5_agent.Infrastructure.Mappers.{
  Value, nothing, integer, number, boolean, text, thing, Conversions,
}
use llm_mt5_agent.Infrastructure.Mappers.Reading.{IsDocumented}

abbrev unread : {A : Type 0} → ExceptionClass → Result A
unread class = raise (record { class = class; message = "bad value" })

abbrev int_value : Value Decimal → Result ℕ
int_value nothing = unread type_error
int_value (integer n) = ok n
int_value (number x) = unread (ExceptionClass.other "OverflowError")
int_value (boolean b) = ok (if b then 1 else 0)
int_value (text s) = unread value_error
int_value thing = unread type_error

abbrev float_value : Value Decimal → Result Decimal
float_value nothing = unread type_error
float_value (integer n) = ok (lit n)
float_value (number x) = ok x
float_value (boolean b) = ok (lit (if b then 1 else 0))
float_value (text s) = unread value_error
float_value thing = unread type_error

abbrev shown : Value Decimal → String
shown (text s) = s
shown _ = "?"

abbrev pub conversions : Conversions Decimal
conversions = record {
  to_int = int_value;
  to_float = float_value;
  to_str = shown;
  repr = shown;
  fromtimestamp = λ x. ok 1_700_000_000;
}

int_value-documented :
    (v : Value Decimal)
    → Ensures
        (λ n. Unit {0})
        (λ k. (is_conversion_error k ≡ true) ⊎ (k ≡ ExceptionClass.other "OverflowError"))
        (int_value v)
int_value-documented nothing = inl refl
int_value-documented (integer n) = tt
int_value-documented (number x) = inr refl
int_value-documented (boolean b) = tt
int_value-documented (text s) = inl refl
int_value-documented thing = inl refl

float_value-documented :
    (v : Value Decimal)
    → Ensures
        (λ n. Unit {0})
        (λ k. (is_conversion_error k ≡ true) ⊎ (k ≡ ExceptionClass.other "OverflowError"))
        (float_value v)
float_value-documented nothing = inl refl
float_value-documented (integer n) = tt
float_value-documented (number x) = tt
float_value-documented (boolean b) = tt
float_value-documented (text s) = inl refl
float_value-documented thing = inl refl

pub conversions-IsDocumented : IsDocumented conversions
conversions-IsDocumented = record {
  int_raises = int_value-documented;
  float_raises = float_value-documented;
  epoch_raises = λ x. tt;
}
