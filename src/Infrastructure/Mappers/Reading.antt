-- ===== src/Infrastructure/Mappers/Reading.antt =====
-- mt5_agent/infrastructure/mt5: which exceptions the reading of a field and of an object raises.
use llm_mt5_agent.Prelude.{String, ◌≡◌, refl, ap, ◌⊎◌, inl, inr, true}
use llm_mt5_agent.Python.Bind.{Ensures, Ensures-bind, Ensures-map}
use llm_mt5_agent.Python.Errors.{
  ExceptionClass, value_error, type_error, mt5_data_error, is_conversion_error, Result, ok, raise,
}
use llm_mt5_agent.Python.Ends.{Ends, Settles}
use llm_mt5_agent.Python.Float.{Float, Datetime}
use llm_mt5_agent.Infrastructure.Mappers.{
  Value, nothing, integer, number, boolean, text, thing, Raw, missing, mapping, broken, indexed,
  alien, Conversions, as_mapping, payload, is_epoch_error, int_of, float_of, timestamp,
  epoch_or_error, utc_from_epoch,
}
use llm_mt5_agent.Infrastructure.Mappers.Market.{timestamp_ms, ms_or_seconds, utc_from_ms}

-- What leaves a mapper: MT5DataError, or the OverflowError of a number out of range.
abbrev pub DataError : ExceptionClass → Type 0
DataError k = (k ≡ mt5_data_error) ⊎ (k ≡ ExceptionClass.other "OverflowError")

-- What the reading of a field may raise before the handler of the mapper.
abbrev pub Unread : ExceptionClass → Type 0
Unread k = (is_conversion_error k ≡ true) ⊎ DataError k

-- What the documentation of Python says of the conversions: `int` and `float` raise a TypeError, a
-- ValueError or an OverflowError, `fromtimestamp` a ValueError, an OSError or an OverflowError.
pub record IsDocumented {F : Type 0} (c : Conversions F) : Type 0 where
  pub int_raises :
      (v : Value F)
      → Ensures
          (λ n. Unit {0})
          (λ k. (is_conversion_error k ≡ true) ⊎ (k ≡ ExceptionClass.other "OverflowError"))
          (c.to_int v)
  pub float_raises :
      (v : Value F)
      → Ensures
          (λ x. Unit {0})
          (λ k. (is_conversion_error k ≡ true) ⊎ (k ≡ ExceptionClass.other "OverflowError"))
          (c.to_float v)
  pub epoch_raises :
      (x : F)
      → Ensures
          (λ t. Unit {0})
          (λ k. (is_epoch_error k ≡ true) ⊎ (k ≡ ExceptionClass.other "OverflowError"))
          (c.fromtimestamp x)

-- `TypeError` and `ValueError` are among the classes that the reading of a time catches.
pub widen :
    (k : ExceptionClass)
    → (is_conversion_error k ≡ true) ⊎ (k ≡ ExceptionClass.other "OverflowError")
    → (is_epoch_error k ≡ true) ⊎ (k ≡ ExceptionClass.other "OverflowError")
widen k (inr h) = inr h
widen value_error (inl h) = inl refl
widen type_error (inl h) = inl refl
widen k (inl h) = cc

module _ {F : Type 0} ⦃fl : Float F⦄ {c : Conversions F} (d : IsDocumented c) where
  pub read_or_Unread :
      {A : Type 0} (m : Result A)
      → Ensures
          (λ a. Unit {0})
          (λ k. (is_conversion_error k ≡ true) ⊎ (k ≡ ExceptionClass.other "OverflowError"))
          m
      → Settles Unread m
  read_or_Unread (ok a) h = record { settles = tt }
  read_or_Unread (raise e) (inl h) = record { settles = inl h }
  read_or_Unread (raise e) (inr h) = record { settles = inr (inr h) }

  pub int_of-Settles : (v : Value F) → Settles Unread (int_of c v)
  unfolding int_of
  int_of-Settles v = read_or_Unread _ (d.int_raises _)

  pub float_of-Settles : (v : Value F) → Settles Unread (float_of c v)
  unfolding float_of
  float_of-Settles v = read_or_Unread _ (d.float_raises _)

  pub timestamp-Unread :
      (seconds : Value F)
      → Ensures
          (λ t. Unit {0})
          (λ k. ((is_epoch_error k ≡ true) ⊎ (k ≡ ExceptionClass.other "OverflowError")))
          (timestamp c seconds)
  unfolding timestamp
  timestamp-Unread seconds =
      Ensures-bind (λ x. Unit {0}) (λ t. Unit {0}) _ _ _
        (Ensures-map (λ x. Unit {0}) (λ x. Unit {0}) _ _ (c.to_float seconds) (λ x h. tt) widen
          (d.float_raises seconds))
        (λ x _. d.epoch_raises x)

  pub utc_from_epoch-Settles : (seconds : Value F) → Settles Unread (utc_from_epoch c seconds)
  unfolding utc_from_epoch epoch_or_error
  utc_from_epoch-Settles seconds = ended (timestamp c seconds) (timestamp-Unread seconds)
    where
      ended :
          (m : Result Datetime)
          → Ensures
              (λ t. Unit {0})
              (λ k. (is_epoch_error k ≡ true) ⊎ (k ≡ ExceptionClass.other "OverflowError"))
              m
          → Settles Unread (epoch_or_error c seconds m)
      ended (ok t) h = record { settles = tt }
      ended (raise e) (inl h) = record { settles = rw h (inr (inl refl)) }
      ended (raise e) (inr h) = record { settles = rw (ap is_epoch_error h) (inr (inr h)) }

module _ {A : Type 0} where
  pub payload-Ends :
      {P : A → Type 0} (what : String) (m : Result A)
      → Ends P Unread m
      → Ends P DataError (payload what m)
  unfolding payload
  payload-Ends what (ok a) h = record { ends = h.ends }
  payload-Ends what (raise e) h = record {
    ends = elim (h.ends) [
      | inl k ↦ rw k (inl refl)
      | inr k ↦ elim k [
        | inl j ↦ rw (ap is_conversion_error j) (inl j)
        | inr j ↦ rw (ap is_conversion_error j) (inr j)
      ]
    ];
  }

pub as_mapping-Settles :
    {F : Type 0} (what : String) (raw : Raw F) → Settles DataError (as_mapping what raw)
unfolding as_mapping
as_mapping-Settles what (mapping d) = record { settles = tt }
as_mapping-Settles what missing = record { settles = inl refl }
as_mapping-Settles what (broken reason) = record { settles = inl refl }
as_mapping-Settles what (indexed name d) = record { settles = inl refl }
as_mapping-Settles what (alien name) = record { settles = inl refl }

module _ {F : Type 0} ⦃fl : Float F⦄ (quoted : String → String) (c : Conversions F)
    (d : IsDocumented c) where
  timestamp_ms-Unread :
      (ms : Value F)
      → Ensures
          (λ t. Unit {0})
          (λ k. (is_epoch_error k ≡ true) ⊎ (k ≡ ExceptionClass.other "OverflowError"))
          (timestamp_ms quoted c ms)
  unfolding timestamp_ms
  timestamp_ms-Unread ms =
      Ensures-bind (λ x. Unit {0}) (λ t. Unit {0}) _ _ _
        (Ensures-map (λ x. Unit {0}) (λ x. Unit {0}) _ _ (c.to_float ms) (λ x h. tt) widen
          (d.float_raises ms))
        (λ x _. d.epoch_raises _)

  ms_or_seconds-Settles :
      (seconds : Value F) (m : Result Datetime)
      → Ensures
          (λ t. Unit {0})
          (λ k. (is_epoch_error k ≡ true) ⊎ (k ≡ ExceptionClass.other "OverflowError"))
          m
      → Settles Unread (ms_or_seconds quoted c seconds m)
  unfolding ms_or_seconds
  ms_or_seconds-Settles seconds (ok t) h = record { settles = tt }
  ms_or_seconds-Settles seconds (raise e) (inl h) = rw h (utc_from_epoch-Settles d seconds)
  ms_or_seconds-Settles seconds (raise e) (inr h) = record {
    settles = rw (ap is_epoch_error h) (inr (inr h));
  }

  pub utc_from_ms-Settles :
      (seconds ms : Value F) → Settles Unread (utc_from_ms quoted c seconds ms)
  unfolding utc_from_ms
  utc_from_ms-Settles seconds nothing = utc_from_epoch-Settles d seconds
  utc_from_ms-Settles seconds (integer n) = ms_or_seconds-Settles seconds _ (timestamp_ms-Unread _)
  utc_from_ms-Settles seconds (number x) = ms_or_seconds-Settles seconds _ (timestamp_ms-Unread _)
  utc_from_ms-Settles seconds (boolean b) = ms_or_seconds-Settles seconds _ (timestamp_ms-Unread _)
  utc_from_ms-Settles seconds (text s) = ms_or_seconds-Settles seconds _ (timestamp_ms-Unread _)
  utc_from_ms-Settles seconds thing = ms_or_seconds-Settles seconds _ (timestamp_ms-Unread _)
