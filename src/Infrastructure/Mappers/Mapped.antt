-- ===== src/Infrastructure/Mappers/Mapped.antt =====
-- mt5_agent/infrastructure/mt5: each mapper, for whatever the terminal reports, returns a record that
-- satisfies the rules of its type or raises one of two exceptions.
use llm_mt5_agent.Prelude.{
  Bool-cases, is_empty, is_blank, String, ◌≡◌, refl, inl, inr, false, List, [], ◌∷◌,
}
use llm_mt5_agent.Python.Bind.{◌>>=◌, Ensures, Ensures-bind}
use llm_mt5_agent.Python.Errors.{ExceptionClass, Result, ok, raise}
use llm_mt5_agent.Python.Ends.{Ends, Settles, bind-Ends, known-Ends}
use llm_mt5_agent.Python.Float.{Float}
use llm_mt5_agent.Domain.Market.{Timeframe, Candle}
use llm_mt5_agent.Infrastructure.Mappers.{
  Raw, missing, mapping, broken, indexed, alien, Rows, no_rows, not_iterable, rows, Conversions,
  as_mapping, map_rows,
}
use llm_mt5_agent.Infrastructure.Mappers.Market.{
  candle_rows, row_fields, map_tick, map_candle, some_candles, map_candles, map_symbol_info,
}
use llm_mt5_agent.Infrastructure.Mappers.Reading.{
  DataError, IsDocumented, payload-Ends, as_mapping-Settles,
}
use llm_mt5_agent.Infrastructure.Mappers.Valid.{
  IsTick, IsCandle, candle_of-Ends, tick_of-Ends, symbol_info_of-Ends,
}

module _ {F : Type 0} ⦃fl : Float F⦄ (quoted : String → String) (c : Conversions F)
    (d : IsDocumented c) where
  pub map_tick-Ends :
      (symbol : String) (raw : Raw F)
      → Ends (IsTick symbol) DataError (map_tick quoted c symbol raw)
  unfolding map_tick
  map_tick-Ends symbol raw =
      bind-Ends (as_mapping-Settles _ raw)
        (λ x. payload-Ends _ _ (tick_of-Ends quoted c d symbol x))

  row_fields-Settles : (what : String) (raw : Raw F) → Settles DataError (row_fields what raw)
  unfolding row_fields as_mapping
  row_fields-Settles what missing = record { settles = tt }
  row_fields-Settles what (mapping x) = record { settles = tt }
  row_fields-Settles what (broken reason) = record { settles = inl refl }
  row_fields-Settles what (indexed name x) = record { settles = tt }
  row_fields-Settles what (alien name) = record { settles = tt }

  map_candle-Ends :
      (symbol : String) (timeframe : Timeframe) (row : Raw F)
      → Ends (IsCandle symbol timeframe) DataError (map_candle quoted c symbol timeframe row)
  unfolding map_candle
  map_candle-Ends symbol timeframe row =
      bind-Ends (row_fields-Settles _ row)
        (λ x. payload-Ends _ _ (candle_of-Ends quoted c d symbol timeframe x))

-- The records of a list of objects: one for each, in order, each with the rules of its type.
pub data Mapped {F A : Type 0} (P : A → Type 0) (mapper : Raw F → Result A)
    : List (Raw F) → List A → Type 0 where
  none_mapped : Mapped P mapper [] []
  one_mapped :
      {row : Raw F} {a : A} {items : List (Raw F)} {xs : List A}
      → mapper row ≡ ok a
      → P a
      → Mapped P mapper items xs
      → Mapped P mapper (row ∷ items) (a ∷ xs)

module _ {F A : Type 0} (P : A → Type 0) (E : ExceptionClass → Type 0) (mapper : Raw F → Result A)
    (each : (row : Raw F) → Ends P E (mapper row)) where
  next_row :
      (row : Raw F) (items : List (Raw F)) (m : Result A)
      → mapper row ≡ m
      → Ensures P E m
      → Ensures (Mapped P mapper items) E (map_rows mapper items)
      → Ensures
          (Mapped P mapper (row ∷ items))
          E
          (m >>= λ a. map_rows mapper items >>= λ xs. ok (a ∷ xs))
  unfolding ◌>>=◌
  next_row row items (raise e) h p rest = p
  next_row row items (ok a) h p rest =
      Ensures-bind (Mapped P mapper items) (Mapped P mapper (row ∷ items)) E (map_rows mapper items)
        (λ xs. ok (a ∷ xs)) rest (λ xs q. one_mapped h p q)

  pub map_rows-Mapped :
      (items : List (Raw F)) → Ensures (Mapped P mapper items) E (map_rows mapper items)
  unfolding map_rows
  map_rows-Mapped [] = none_mapped
  map_rows-Mapped (row ∷ items) =
      next_row row items (mapper row) refl (each row).ends (map_rows-Mapped items)

module _ {F : Type 0} ⦃fl : Float F⦄ (quoted : String → String) (c : Conversions F)
    (d : IsDocumented c) where
  -- The candles of rows: at least one, each of its row.
  pub record AreCandles (symbol : String) (timeframe : Timeframe) (raw : Rows F)
      (candles : List (Candle F)) : Type 0 where
    pub some_rows : is_empty candles ≡ false
    pub of_rows :
        (items : List (Raw F)) × (raw ≡ rows items)
        × Mapped (IsCandle symbol timeframe) (map_candle quoted c symbol timeframe) items candles

  some_candles-AreCandles :
      (symbol : String) (timeframe : Timeframe) (items : List (Raw F)) (candles : List (Candle F))
      → Mapped (IsCandle symbol timeframe) (map_candle quoted c symbol timeframe) items candles
      → Ends
          (AreCandles symbol timeframe (rows items))
          DataError
          (some_candles quoted c symbol candles)
  unfolding some_candles
  some_candles-AreCandles symbol timeframe items candles h = record {
    ends = elim (Bool-cases (is_empty candles)) [
      | inl a ↦ rw a (inl refl)
      | inr a ↦ rw a (record { some_rows = a; of_rows = (items, refl, h) })
    ];
  }

  pub map_candles-Ends :
      (symbol : String) (timeframe : Timeframe) (raw : Rows F)
      → Ends (AreCandles symbol timeframe raw) DataError (map_candles quoted c symbol timeframe raw)
  unfolding map_candles candle_rows ◌>>=◌
  map_candles-Ends symbol timeframe no_rows = record { ends = inl refl }
  map_candles-Ends symbol timeframe not_iterable = record { ends = inl refl }
  map_candles-Ends symbol timeframe (rows items) =
      known-Ends
        (record {
          ends =
              map_rows-Mapped _ _ (map_candle quoted c symbol timeframe)
                (map_candle-Ends quoted c d symbol timeframe) items;
        })
        (some_candles-AreCandles symbol timeframe items)

  pub map_symbol_info-Ends :
      (symbol : String) (raw : Raw F)
      → Ends (λ y. is_blank y.symbol ≡ false) DataError (map_symbol_info quoted c symbol raw)
  unfolding map_symbol_info
  map_symbol_info-Ends symbol raw =
      bind-Ends (as_mapping-Settles _ raw)
        (λ x. payload-Ends _ _ (symbol_info_of-Ends quoted c d symbol x))
