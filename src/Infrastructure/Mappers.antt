-- ===== src/Infrastructure/Mappers.antt =====
-- mt5_agent/infrastructure/mt5: the objects of the terminal as the mappers read them. What a field
-- holds is one of the values below; the integers that the terminal reports are not negative.
pub mod Account
pub mod Market
pub mod Trading
pub mod Reading
pub mod Valid
pub mod Mapped
pub mod Collections
pub mod Documented
use llm_mt5_agent.Prelude.{
  ◌==◌, if◌then◌else◌, str_eq, ℕ, String, ◌<>◌, Bool, true, false, not, List, [], ◌∷◌,
}
use llm_mt5_agent.Python.Bind.{◌>>=◌, ◌>>◌}
use llm_mt5_agent.Python.Errors.{
  ExceptionClass, value_error, type_error, timeout_error, os_error, mt5_data_error,
  is_conversion_error, Result, ok, raise,
}
use llm_mt5_agent.Python.Float.{Float, lit, Datetime}

pub data Value (F : Type 0) : Type 0 where
  nothing : Value F
  integer : ℕ → Value F
  number : F → Value F
  boolean : Bool → Value F
  text : String → Value F
  -- any other object
  thing : Value F

-- The mapping of an object, its keys in order.
abbrev pub Fields : Type 0 → Type 0
Fields F = List (String × Value F)

-- An object of the terminal: None, one with a mapping (`_asdict()`, a `Mapping` or `vars`), one whose
-- `_asdict()` raises, one of a type without a mapping whose fields are found by index or as attributes
-- (a row of numpy), or one of any other type.
pub data Raw (F : Type 0) : Type 0 where
  missing : Raw F
  mapping : Fields F → Raw F
  broken : String → Raw F
  indexed : String → Fields F → Raw F
  alien : String → Raw F

-- A collection of the terminal: None, a value that is no iterable, or its rows.
pub data Rows (F : Type 0) : Type 0 where
  no_rows : Rows F
  not_iterable : Rows F
  rows : List (Raw F) → Rows F

-- `int`, `float`, `str` and `repr` of a value, and `datetime.fromtimestamp(seconds, tz=UTC)`.
pub record Conversions (F : Type 0) : Type 0 where
  pub to_int : Value F → Result ℕ
  pub to_float : Value F → Result F
  pub to_str : Value F → String
  pub repr : Value F → String
  pub fromtimestamp : F → Result Datetime

abbrev pub data_error : {A : Type 0} → String → Result A
data_error message = raise (record { class = mt5_data_error; message = message })

module _ {F : Type 0} where
  -- `_coerce_mapping(raw, what=what)` and `_as_mapping(raw, what=what)`
  unfoldable pub as_mapping : String → Raw F → Result (Fields F)
  as_mapping what missing = data_error (what <> " is unavailable (MT5 returned None).")
  as_mapping what (mapping d) = ok d
  as_mapping what (broken reason) = data_error ("Cannot decode " <> (what <> (": " <> reason)))
  as_mapping what (indexed name d) =
      data_error ("Cannot decode " <> (what <> (": unexpected type " <> (name <> "."))))
  as_mapping what (alien name) =
      data_error ("Cannot decode " <> (what <> (": unexpected type " <> (name <> "."))))

  -- `data.get(key, default)`
  unfoldable pub field_or : Fields F → String → Value F → Value F
  field_or [] key default = default
  field_or ((k, v) ∷ rest) key default = if str_eq k key then v else field_or rest key default

  -- `_get(data, *names, default=default)`: None counts as missing
  unfoldable pub first_field : Fields F → List String → Value F → Value F
  first_field d [] default = default
  first_field d (name ∷ names) default = elim (field_or d name nothing) [
    | nothing ↦ first_field d names default
    | integer n ↦ integer n
    | number x ↦ number x
    | boolean b ↦ boolean b
    | text s ↦ text s
    | thing ↦ thing
  ]

-- `except (TypeError, ValueError) as exc: raise MT5DataError(...)`
unfoldable pub payload : {A : Type 0} → String → Result A → Result A
payload what (ok a) = ok a
payload what (raise e) =
    if is_conversion_error e.class then data_error (what <> (": " <> e.message)) else raise e

-- `except (TypeError, ValueError, OSError)`
abbrev pub is_epoch_error : ExceptionClass → Bool
is_epoch_error value_error = true
is_epoch_error type_error = true
is_epoch_error timeout_error = true
is_epoch_error (os_error _) = true
is_epoch_error _ = false

module _ {F : Type 0} ⦃fl : Float F⦄ (c : Conversions F) where
  -- The truth of a value.
  unfoldable pub truthy : Value F → Bool
  truthy nothing = false
  truthy (integer n) = not (n == 0)
  truthy (number x) = not (fl.eq x (lit 0))
  truthy (boolean b) = b
  truthy (text s) = not (str_eq s "")
  truthy thing = true

  -- `v or default`
  unfoldable pub value_or : Value F → Value F → Value F
  value_or v default = if truthy v then v else default

  -- `int(v or 0)`, `float(v or 0.0)` and `str(v or "")`
  unfoldable pub int_of : Value F → Result ℕ
  int_of v = c.to_int (value_or v (integer 0))

  unfoldable pub float_of : Value F → Result F
  float_of v = c.to_float (value_or v (number (lit 0)))

  unfoldable pub str_of : Value F → String
  str_of v = c.to_str (value_or v (text ""))

  -- The same of `data.get(key, ...)`.
  abbrev pub int_field : Fields F → String → Result ℕ
  int_field d key = int_of (field_or d key (integer 0))

  abbrev pub float_field : Fields F → String → Result F
  float_field d key = float_of (field_or d key (number (lit 0)))

  abbrev pub str_field : Fields F → String → String
  str_field d key = str_of (field_or d key (text ""))

  -- `datetime.fromtimestamp(float(seconds), tz=UTC)`
  unfoldable pub timestamp : Value F → Result Datetime
  timestamp seconds = do x ← c.to_float seconds; c.fromtimestamp x

  -- What a failed reading of `seconds` becomes.
  unfoldable pub epoch_or_error : Value F → Result Datetime → Result Datetime
  epoch_or_error seconds (ok t) = ok t
  epoch_or_error seconds (raise e) =
      if is_epoch_error e.class
      then data_error ("Invalid epoch timestamp " <> (c.repr seconds <> (": " <> e.message)))
      else raise e

  -- `_utc_from_epoch(seconds)`
  unfoldable pub utc_from_epoch : Value F → Result Datetime
  utc_from_epoch seconds = epoch_or_error seconds (timestamp seconds)

-- `[mapper(row) for row in rows]`
unfoldable pub map_rows : {F A : Type 0} → (Raw F → Result A) → List (Raw F) → Result (List A)
map_rows mapper [] = ok []
map_rows mapper (row ∷ more) = do
  value ← mapper row
  values ← map_rows mapper more
  ok (value ∷ values)
