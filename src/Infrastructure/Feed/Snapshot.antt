-- ===== src/Infrastructure/Feed/Snapshot.antt =====
-- mt5_agent/infrastructure/mt5/market_adapter.py: the reads of the adapter, and the snapshot that is
-- composed of them.
use llm_mt5_agent.Prelude.{
  is_empty, ℤ, pos, is_blank, strip, strip-strip, ℕ, String, ◌<>◌, ◌≡◌, refl, subst, Bool, false,
  Option, List,
}
use llm_mt5_agent.Python.Step.{Step}
use llm_mt5_agent.Python.Errors.{ExceptionClass, Result, ok, raise}
use llm_mt5_agent.Python.Float.{Float, Datetime}
use llm_mt5_agent.Python.Ends.{Ends, map-Ends}
use llm_mt5_agent.Python.Obeys.{Obeys, bind-Obeys, lift-Obeys, if-Obeys}
use llm_mt5_agent.Domain.Market.{
  Timeframe, timeframe_value, Tick, Candle, SymbolInfo, MarketSnapshot, new_snapshot,
}
use llm_mt5_agent.Infrastructure.Mappers.{Raw, Rows, Conversions}
use llm_mt5_agent.Infrastructure.Mappers.Market.{map_tick, map_candle, map_symbol_info}
use llm_mt5_agent.Infrastructure.Mappers.Reading.{IsDocumented}
use llm_mt5_agent.Infrastructure.Mappers.Valid.{IsTick, IsCandle}
use llm_mt5_agent.Infrastructure.Mappers.Mapped.{
  map_tick-Ends, Mapped, none_mapped, one_mapped, AreCandles, map_candles-Ends,
  map_symbol_info-Ends,
}
use llm_mt5_agent.Infrastructure.Feed.Market.{
  MarketModule, is_missing, has_no_rows, get_tick, get_candles, get_symbol_info, get_snapshot,
}
use llm_mt5_agent.Infrastructure.Feed.Guard.{
  FeedError, IsOutside, mapped-Obeys, on_world-Obeys, ensure_ready-Obeys,
}
use llm_mt5_agent.Infrastructure.Feed.MarketObeys.{
  MarketAnswers, IsMarketModule, MarketGuard, IfSome, clean_symbol-Obeys, check_count-Obeys,
  check_start_pos-Obeys, resolve_timeframe-Obeys, or_none-Obeys, not_found-Obeys,
  raise_unknown_or_data-Obeys,
}

module _ {F : Type 0} ⦃fl : Float F⦄ (quoted : String → String) (c : Conversions F)
    (d : IsDocumented c) where
  -- Candles, at least one, one for each row that the module answered to the question.
  pub record AreRead (A : MarketAnswers F) (symbol : String) (timeframe : Timeframe)
      (start count : ℤ) (candles : List (Candle F)) : Type 0 where
    pub constant : ℕ
    pub named : A.of_constant ("TIMEFRAME_" <> timeframe_value timeframe) constant
    pub raw : Rows F
    pub answered : A.of_rates symbol constant start count raw
    pub are_candles : AreCandles quoted c d symbol timeframe raw candles

  -- The tick, and the symbol's record, of an object that the module answered.
  pub record IsReadTick (A : MarketAnswers F) (symbol : String) (t : Tick F) : Type 0 where
    pub raw : Raw F
    pub answered : A.of_tick symbol raw
    pub mapped : map_tick quoted c symbol raw ≡ ok t
    pub valid : IsTick symbol t

  pub record IsReadInfo (A : MarketAnswers F) (symbol : String) (x : SymbolInfo F) : Type 0 where
    pub raw : Raw F
    pub answered : A.of_info symbol raw
    pub mapped : map_symbol_info quoted c symbol raw ≡ ok x
    pub valid : is_blank x.symbol ≡ false

  -- A snapshot of what was asked for, with a tick and a record of the symbol where they could be read.
  pub record IsSnapshot (A : MarketAnswers F) (symbol : String) (timeframe : Timeframe) (count : ℤ)
      (s : MarketSnapshot F) : Type 0 where
    pub of_symbol : s.symbol ≡ strip symbol
    pub of_timeframe : s.timeframe ≡ timeframe
    pub of_rows : AreRead A (strip symbol) timeframe (pos 0) count s.candles
    pub of_tick : IfSome (IsReadTick A (strip symbol)) s.tick
    pub of_info : IfSome (IsReadInfo A (strip symbol)) s.symbol_info

  -- A candle that is read has a symbol, and there is one.
  Mapped-named :
      (symbol : String) (timeframe : Timeframe) (items : List (Raw F)) (xs : List (Candle F))
      → is_empty xs ≡ false
      → Mapped (IsCandle symbol timeframe) (map_candle quoted c symbol timeframe) items xs
      → is_blank symbol ≡ false
  Mapped-named symbol timeframe items xs e none_mapped = cc
  Mapped-named symbol timeframe items xs e (one_mapped h x rest) = x.named

  AreRead-named :
      (A : MarketAnswers F) (symbol : String) (timeframe : Timeframe) (start count : ℤ)
      (xs : List (Candle F))
      → AreRead A symbol timeframe start count xs
      → is_blank symbol ≡ false
  AreRead-named A symbol timeframe start count xs h =
      Mapped-named symbol timeframe _ xs h.are_candles.some_rows h.are_candles.of_rows.2

  new_snapshot-Ends :
      (A : MarketAnswers F) {E : ExceptionClass → Type 0} (name symbol : String)
      (timeframe : Timeframe) (count : ℤ) (at : Datetime) (xs : List (Candle F))
      (tick : Option (Tick F)) (info : Option (SymbolInfo F))
      → name ≡ strip symbol
      → AreRead A (strip name) timeframe (pos 0) count xs
      → IfSome (IsReadTick A (strip name)) tick
      → IfSome (IsReadInfo A (strip name)) info
      → Ends (IsSnapshot A symbol timeframe count) E (
          new_snapshot (record {
            symbol = name;
            timeframe = timeframe;
            fetched_at = at;
            candles = xs;
            tick = tick;
            symbol_info = info;
          }))
  unfolding new_snapshot
  new_snapshot-Ends A name symbol timeframe count at xs tick info h v t i =
      let same : strip name ≡ strip symbol = rw (h, strip-strip symbol) refl in
      let read : AreRead A (strip symbol) timeframe (pos 0) count xs =
        subst (λ x. AreRead A x timeframe (pos 0) count xs) same v in
      let named : is_blank name ≡ false = rw (h, AreRead-named A _ timeframe _ _ xs read) refl in
      record {
        ends = rw named (record {
          of_symbol = h;
          of_timeframe = refl;
          of_rows = read;
          of_tick = subst (λ x. IfSome (IsReadTick A x) tick) same t;
          of_info = subst (λ x. IfSome (IsReadInfo A x) info) same i;
        });
      }

-- What a mapper returns is what it was said to return.
returned-Ends :
    {B : Type 0} {V : B → Type 0} {E : ExceptionClass → Type 0} (r : Result B)
    → Ends V E r
    → Ends (λ b. (r ≡ ok b) × V b) E r
returned-Ends (ok b) h = record { ends = (refl, h.ends) }
returned-Ends (raise e) h = record { ends = h.ends }

module _ {F W : Type 0} ⦃fl : Float F⦄ (quoted : String → String) (c : Conversions F)
    (d : IsDocumented c) {A : MarketAnswers F} {P : W → Type 0} {E : ExceptionClass → Type 0} where
  module _ (connection : Option (Step W Bool)) (load : Result (MarketModule F W))
      (o : IsOutside (IsMarketModule A P E) P E connection load) where
    get_tick-Obeys :
        (symbol : String)
        → Obeys
            (MarketGuard A P E)
            (IsReadTick quoted c d A (strip symbol))
            (FeedError E)
            (get_tick quoted c connection load symbol)
    unfolding get_tick
    get_tick-Obeys symbol = bind-Obeys (clean_symbol-Obeys symbol) (λ name n.
        bind-Obeys (ensure_ready-Obeys connection load o) (λ m h.
          bind-Obeys (on_world-Obeys (h.ticks name n.1)) (λ raw said.
            if-Obeys (is_missing raw)
              (λ _. raise_unknown_or_data-Obeys quoted c d m name "tick" h n.1)
              (λ _. mapped-Obeys (
                map-Ends
                  (λ t v.
                    subst (λ x. IsReadTick quoted c d A x t) n.0
                      (record { raw = raw; answered = said; mapped = v.0; valid = v.1 }))
                  (λ k x. x) (returned-Ends _ (map_tick-Ends quoted c d name raw)))))))

    get_candles-Obeys :
        (symbol : String) (timeframe : Timeframe) (count start : ℤ)
        → Obeys
            (MarketGuard A P E)
            (AreRead quoted c d A (strip symbol) timeframe start count)
            (FeedError E)
            (get_candles quoted c connection load symbol timeframe count start)
    unfolding get_candles
    get_candles-Obeys symbol timeframe count start =
        bind-Obeys (clean_symbol-Obeys symbol) (λ name n.
          bind-Obeys (check_count-Obeys count) (λ _ k.
            bind-Obeys (check_start_pos-Obeys start) (λ _ j.
              bind-Obeys (ensure_ready-Obeys connection load o) (λ m h.
                bind-Obeys (resolve_timeframe-Obeys timeframe _) (λ tf e.
                  bind-Obeys (on_world-Obeys (h.rates name tf start count n.1 j k)) (λ raw said.
                    if-Obeys (has_no_rows raw)
                      (λ _. raise_unknown_or_data-Obeys quoted c d m name "candles" h n.1)
                      (λ _. mapped-Obeys (
                        map-Ends
                          (λ xs v.
                            subst (λ x. AreRead quoted c d A x timeframe start count xs) n.0
                              (record {
                                constant = tf;
                                named = h.constants _ tf e;
                                raw = raw;
                                answered = said;
                                are_candles = v;
                              }))
                          (λ k x. x) (map_candles-Ends quoted c d name timeframe raw)))))))))

    get_symbol_info-Obeys :
        (symbol : String)
        → Obeys
            (MarketGuard A P E)
            (IsReadInfo quoted c d A (strip symbol))
            (FeedError E)
            (get_symbol_info quoted c connection load symbol)
    unfolding get_symbol_info
    get_symbol_info-Obeys symbol = bind-Obeys (clean_symbol-Obeys symbol) (λ name n.
        bind-Obeys (ensure_ready-Obeys connection load o) (λ m h.
          bind-Obeys (on_world-Obeys (h.infos name n.1)) (λ raw said.
            if-Obeys (is_missing raw) (λ _. not_found-Obeys quoted c d name)
              (λ _. mapped-Obeys (
                map-Ends
                  (λ t v.
                    subst (λ x. IsReadInfo quoted c d A x t) n.0
                      (record { raw = raw; answered = said; mapped = v.0; valid = v.1 }))
                  (λ k x. x) (returned-Ends _ (map_symbol_info-Ends quoted c d name raw)))))))

    -- For a terminal whose objects are converted as Python documents it, and for any connection, any
    -- loaded module and any clock whose calls keep a predicate on the world, answer as a given relation
    -- of questions to answers allows and raise only exceptions of a class E, where the module is asked
    -- only for a symbol that is not empty, from 1 to 5000 candles and a start that is not negative: the
    -- read of a snapshot keeps the predicate, for every symbol, timeframe and count; a snapshot that it
    -- returns is of the stripped symbol and of the timeframe; its candles are at least one, valid, one
    -- for each row, in order, of what the relation allows as the answer to that symbol, the module's
    -- constant of the timeframe, start 0 and the count; its tick and its record of the symbol, where it
    -- has them, are of what the relation allows for that symbol, the tick positive and not crossed; what
    -- it raises is of E, MT5NotConnectedError, MT5MarketDataError, MT5SymbolNotFoundError, MT5DataError
    -- or OverflowError.
    pub get_snapshot-Obeys :
        (now : Step W Datetime) (symbol : String) (timeframe : Timeframe) (count : ℤ)
        → Obeys P (λ t. Unit {0}) E now
        → Obeys
            (MarketGuard A P E)
            (IsSnapshot quoted c d A symbol timeframe count)
            (FeedError E)
            (get_snapshot quoted c connection load now symbol timeframe count)
    unfolding get_snapshot
    get_snapshot-Obeys now symbol timeframe count clock =
        bind-Obeys (clean_symbol-Obeys symbol) (λ name n.
          bind-Obeys (get_candles-Obeys name timeframe count (pos 0)) (λ candles v.
            bind-Obeys (or_none-Obeys (get_tick-Obeys name)) (λ tick t.
              bind-Obeys (or_none-Obeys (get_symbol_info-Obeys name)) (λ info i.
                bind-Obeys (on_world-Obeys clock) (λ fetched_at _. lift-Obeys (
                  new_snapshot-Ends quoted c d A name symbol timeframe count fetched_at candles tick
                    info n.0 v t i))))))
