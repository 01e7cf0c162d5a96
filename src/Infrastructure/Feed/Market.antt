-- ===== src/Infrastructure/Feed/Market.antt =====
-- mt5_agent/infrastructure/mt5/market_adapter.py and timeframes.py
use llm_mt5_agent.Prelude.{
  if◌then◌else◌, ℤ, pos, negsuc, ltb_ℤ, str_eq, strip, str_ℕ, ℕ, suc, String, ◌<>◌, Bool, true,
  false, ◌||◌, Option, none, some, List,
}
use llm_mt5_agent.Python.Step.{Step, pure, lift, catch, ◌>>=◌, ◌>>◌}
use llm_mt5_agent.Python.Errors.{
  ExceptionClass, mt5_market_data_error, mt5_symbol_not_found_error, Result, raise,
}
use llm_mt5_agent.Python.Float.{Float, Datetime}
use llm_mt5_agent.Domain.Market.{
  Timeframe, timeframe_value, Tick, Candle, SymbolInfo, MarketSnapshot, new_snapshot,
}
use llm_mt5_agent.Infrastructure.Mappers.{Raw, missing, Rows, no_rows, Conversions}
use llm_mt5_agent.Infrastructure.Mappers.Market.{map_tick, map_candles, map_symbol_info}
use llm_mt5_agent.Infrastructure.Feed.{Feed, fail, on_world, ensure_ready}

-- The functions of the module that the adapter calls, each of which may raise, and the attributes
-- `TIMEFRAME_...` that it has.
pub record MarketModule (F W : Type 0) : Type 0 where
  pub symbol_info_tick : String → Step W (Raw F)
  pub copy_rates_from_pos : String → ℕ → ℤ → ℤ → Step W (Rows F)
  pub symbol_info : String → Step W (Raw F)
  -- the text of `last_error()`
  pub last_error : Step W String
  pub attribute : String → Option ℕ

abbrev pub max_candles : ℤ
max_candles = pos 5000

unfoldable pub int_repr : ℤ → String
int_repr (pos n) = str_ℕ n
int_repr (negsuc n) = "-" <> str_ℕ (suc n)

-- `raw is None`
abbrev pub is_missing : {F : Type 0} → Raw F → Bool
is_missing missing = true
is_missing _ = false

abbrev pub has_no_rows : {F : Type 0} → Rows F → Bool
has_no_rows no_rows = true
has_no_rows _ = false

-- `except MT5SymbolNotFoundError` and `except MT5MarketDataError`
abbrev pub is_not_found : ExceptionClass → Bool
is_not_found mt5_symbol_not_found_error = true
is_not_found _ = false

abbrev pub is_market_error : ExceptionClass → Bool
is_market_error mt5_market_data_error = true
is_market_error mt5_symbol_not_found_error = true
is_market_error _ = false

-- `_clean_symbol(symbol)`
unfoldable pub clean_symbol : {S : Type 0} → String → Step S String
clean_symbol symbol =
    if str_eq (strip symbol) ""
    then fail mt5_market_data_error "symbol must be non-empty"
    else pure (strip symbol)

-- `_check_count(count)`
unfoldable pub check_count : {S : Type 0} → ℤ → Step S (Unit {0})
check_count count =
    if ltb_ℤ count (pos 1) || ltb_ℤ max_candles count
    then fail mt5_market_data_error ("count must be 1..5000, got " <> int_repr count)
    else pure tt

-- `_check_start_pos(start_pos)`
unfoldable pub check_start_pos : {S : Type 0} → ℤ → Step S (Unit {0})
check_start_pos start_pos =
    if ltb_ℤ start_pos (pos 0)
    then fail mt5_market_data_error ("start_pos must be >= 0, got " <> int_repr start_pos)
    else pure tt

-- `resolve_timeframe(mt5, timeframe)`, where `found` is what `getattr` gives
unfoldable pub resolve_timeframe : {S : Type 0} → Timeframe → Option ℕ → Step S ℕ
resolve_timeframe timeframe (some value) = pure value
resolve_timeframe timeframe none =
    fail mt5_market_data_error ("Unsupported timeframe: " <> timeframe_value timeframe)

abbrev pub MarketFeed : Type 0 → Type 0 → Type 0
MarketFeed F W = Feed (MarketModule F W) W

module _ {F W : Type 0} where
  -- `_last_error(mt5)`
  unfoldable pub last_error_text : MarketModule F W → Step (MarketFeed F W) String
  last_error_text mt5 = catch (on_world mt5.last_error) (λ e. pure "unknown error")

  -- `try: ... except MT5MarketDataError: None`
  unfoldable pub or_none : {A : Type 0} → Step (MarketFeed F W) A → Step (MarketFeed F W) (Option A)
  or_none m =
      catch (do a ← m; pure (some a))
        (λ e. if is_market_error e.class then pure none else lift (raise e))

module _ {F W : Type 0} ⦃fl : Float F⦄ (quoted : String → String) (c : Conversions F) where
  -- `raise MT5SymbolNotFoundError(symbol)`
  unfoldable pub not_found : {A : Type 0} → String → Step (MarketFeed F W) A
  not_found symbol = fail mt5_symbol_not_found_error ("Unknown symbol: " <> quoted symbol)

  -- The probe of the symbol, whose other exceptions are dropped.
  unfoldable pub probe_symbol : MarketModule F W → String → Step (MarketFeed F W) (Unit {0})
  probe_symbol mt5 symbol =
      catch
        (do
          info ← on_world (mt5.symbol_info symbol)
          if is_missing info then not_found symbol else pure tt)
        (λ e. if is_not_found e.class then lift (raise e) else pure tt)

  -- `_raise_unknown_or_data(mt5, symbol, what=what)`
  unfoldable pub raise_unknown_or_data :
      {A : Type 0} → MarketModule F W → String → String → Step (MarketFeed F W) A
  raise_unknown_or_data mt5 symbol what = do
    probe_symbol mt5 symbol
    reason ← last_error_text mt5
    fail mt5_market_data_error (what <> ("(" <> (symbol <> (") unavailable: " <> reason))))

  module _ (connection : Option (Step W Bool)) (load : Result (MarketModule F W)) where
    -- `get_tick(symbol)`
    unfoldable pub get_tick : String → Step (MarketFeed F W) (Tick F)
    get_tick symbol = do
      name ← clean_symbol symbol
      mt5 ← ensure_ready connection load
      raw ← on_world (mt5.symbol_info_tick name)
      if is_missing raw
          then raise_unknown_or_data mt5 name "tick"
          else lift (map_tick quoted c name raw)

    -- `get_candles(symbol, timeframe, count, start_pos)`
    unfoldable pub get_candles :
        String → Timeframe → ℤ → ℤ → Step (MarketFeed F W) (List (Candle F))
    get_candles symbol timeframe count start_pos = do
      name ← clean_symbol symbol
      check_count count
      check_start_pos start_pos
      mt5 ← ensure_ready connection load
      tf_value ←
          resolve_timeframe timeframe (mt5.attribute ("TIMEFRAME_" <> timeframe_value timeframe))
      raw ← on_world (mt5.copy_rates_from_pos name tf_value start_pos count)
      if has_no_rows raw
          then raise_unknown_or_data mt5 name "candles"
          else lift (map_candles quoted c name timeframe raw)

    -- `get_symbol_info(symbol)`
    unfoldable pub get_symbol_info : String → Step (MarketFeed F W) (SymbolInfo F)
    get_symbol_info symbol = do
      name ← clean_symbol symbol
      mt5 ← ensure_ready connection load
      raw ← on_world (mt5.symbol_info name)
      if is_missing raw then not_found name else lift (map_symbol_info quoted c name raw)

    -- `get_snapshot(symbol, timeframe, count)`, where `now` is `datetime.now(UTC)`
    unfoldable pub get_snapshot :
        Step W Datetime → String → Timeframe → ℤ → Step (MarketFeed F W) (MarketSnapshot F)
    get_snapshot now symbol timeframe count = do
      name ← clean_symbol symbol
      candles ← get_candles name timeframe count (pos 0)
      tick ← or_none (get_tick name)
      info ← or_none (get_symbol_info name)
      fetched_at ← on_world now
      lift (
          new_snapshot (record {
            symbol = name;
            timeframe = timeframe;
            fetched_at = fetched_at;
            candles = candles;
            tick = tick;
            symbol_info = info;
          }))
