-- ===== src/Application/Services/Market.antt =====
-- mt5_agent/application/market_service.py, over the port of domain/ports.py.
use llm_mt5_agent.Prelude.{
  ltb, if◌then◌else◌, Bool-cases, str_eq, strip, text_length, strip-strip, ℕ, String, ◌<>◌, ◌≡◌,
  refl, inl, inr, false, List,
}
use llm_mt5_agent.Python.Step.{Step, lift, ◌>>=◌}
use llm_mt5_agent.Python.Errors.{
  mt5_market_data_error, Exception, Result, ok, raise, ok-inj, ok-raise,
}
use llm_mt5_agent.Domain.Market.{Timeframe, Tick, Candle, SymbolInfo, MarketSnapshot}

pub record MarketDataPort (F W : Type 0) : Type 0 where
  pub get_tick : String → Step W (Tick F)
  pub get_candles : String → Timeframe → ℕ → ℕ → Step W (List (Candle F))
  pub get_symbol_info : String → Step W (SymbolInfo F)
  pub get_snapshot : String → Timeframe → ℕ → Step W (MarketSnapshot F)

abbrev market_data_exception : String → Exception
market_data_exception message = record { class = mt5_market_data_error; message = message }

-- `_clean(symbol)`, where `quoted` is `repr`
unfoldable pub clean : (String → String) → String → Result String
clean quoted symbol =
    let name = strip symbol in
    if str_eq name ""
    then raise (market_data_exception "symbol must be non-empty")
    else if ltb 32 (text_length name)
    then raise (market_data_exception ("symbol too long: " <> quoted name))
    else ok name

module _ {F W : Type 0} (quoted : String → String) (port : MarketDataPort F W) where
  unfoldable pub tick_of : String → Step W (Tick F)
  tick_of symbol = do name ← lift (clean quoted symbol); port.get_tick name

  unfoldable pub candles_of : String → Timeframe → ℕ → ℕ → Step W (List (Candle F))
  candles_of symbol timeframe number start = do
    name ← lift (clean quoted symbol)
    port.get_candles name timeframe number start

  unfoldable pub symbol_info_of : String → Step W (SymbolInfo F)
  symbol_info_of symbol = do name ← lift (clean quoted symbol); port.get_symbol_info name

  unfoldable pub snapshot_of : String → Timeframe → ℕ → Step W (MarketSnapshot F)
  snapshot_of symbol timeframe number = do
    name ← lift (clean quoted symbol)
    port.get_snapshot name timeframe number

-- A name as the service hands it to the port.
pub record IsClean (name : String) : Type 0 where
  pub stripped : strip name ≡ name
  pub is_named : str_eq name "" ≡ false
  pub is_short : ltb 32 (text_length name) ≡ false

clean-inv :
    (quoted : String → String) (symbol name : String)
    → clean quoted symbol ≡ ok name
    → (strip symbol ≡ name) × (str_eq name "" ≡ false) × (ltb 32 (text_length name) ≡ false)
unfolding clean
clean-inv quoted symbol name h = elim (Bool-cases (str_eq (strip symbol) "")) [
  | inl e ↦ absurd (ok-raise (rw e at h))
  | inr e ↦ elim (Bool-cases (ltb 32 (text_length (strip symbol)))) [
    | inl k ↦ absurd (ok-raise (rw (e, k) at h))
    | inr k ↦
        let same : strip symbol ≡ name = ok-inj (rw (e, k) at h) in
        (same, rw same at e, rw same at k)
  ]
]

-- A symbol that the service accepts is stripped, named and of at most 32 characters, and cleaning it
-- again accepts it as it is.
pub clean-IsClean :
    (quoted : String → String) (symbol name : String)
    → clean quoted symbol ≡ ok name
    → IsClean name × (clean quoted name ≡ ok name)
unfolding clean
clean-IsClean quoted symbol name h =
    let (same, named, short) = clean-inv quoted symbol name h in
    let still : strip name ≡ name = rw same at (strip-strip symbol) in
    (record { stripped = still; is_named = named; is_short = short }, rw (still, named, short) refl)
