-- ===== src/Infrastructure/Mappers/Market.antt =====
-- mt5_agent/infrastructure/mt5/market_mappers.py
use llm_mt5_agent.Prelude.{if◌then◌else◌, is_empty, String, ◌<>◌, List, []}
use llm_mt5_agent.Python.Bind.{◌>>=◌}
use llm_mt5_agent.Python.Errors.{Result, ok, raise}
use llm_mt5_agent.Python.Float.{Float, lit, Datetime}
use llm_mt5_agent.Domain.Market.{
  Timeframe, Tick, Candle, SymbolInfo, new_tick, new_candle, new_symbol_info,
}
use llm_mt5_agent.Infrastructure.Mappers.{
  Value, nothing, integer, number, text, Fields, Raw, mapping, broken, indexed, Rows, no_rows,
  not_iterable, rows, Conversions, data_error, as_mapping, field_or, payload, is_epoch_error,
  value_or, int_of, float_of, int_field, float_field, str_field, utc_from_epoch, map_rows,
}

-- `list(rows)`, where None raises and so does a value that is no iterable
unfoldable pub candle_rows :
    {F : Type 0} → (String → String) → String → Rows F → Result (List (Raw F))
candle_rows quoted symbol no_rows =
    data_error ("candles(" <> (symbol <> ") unavailable (MT5 returned None)."))
candle_rows quoted symbol not_iterable =
    data_error ("Invalid candles payload for " <> quoted symbol)
candle_rows quoted symbol (rows items) = ok items

-- The fields that `get` of `map_candle` reads: a row without a mapping has only the defaults.
unfoldable pub row_fields : {F : Type 0} → String → Raw F → Result (Fields F)
row_fields what (mapping d) = ok d
row_fields what (indexed name d) = ok d
row_fields what (broken reason) = as_mapping what (broken reason)
row_fields what _ = ok []

module _ {F : Type 0} ⦃fl : Float F⦄ (quoted : String → String) (c : Conversions F) where
  -- `datetime.fromtimestamp(float(ms) / 1000.0, tz=UTC)`
  unfoldable pub timestamp_ms : Value F → Result Datetime
  timestamp_ms ms = do x ← c.to_float ms; c.fromtimestamp (fl.div x (lit 1000))

  -- `pass` where the milliseconds fail
  unfoldable pub ms_or_seconds : Value F → Result Datetime → Result Datetime
  ms_or_seconds seconds (ok t) = ok t
  ms_or_seconds seconds (raise e) =
      if is_epoch_error e.class then utc_from_epoch c seconds else raise e

  -- `_utc_from_epoch(seconds, ms=ms)`
  unfoldable pub utc_from_ms : Value F → Value F → Result Datetime
  utc_from_ms seconds nothing = utc_from_epoch c seconds
  utc_from_ms seconds ms = ms_or_seconds seconds (timestamp_ms ms)

  unfoldable pub tick_of : String → Fields F → Result (Tick F)
  tick_of symbol d = do
    time ← utc_from_ms (field_or d "time" (integer 0)) (field_or d "time_msc" nothing)
    bid ← float_field c d "bid"
    ask ← float_field c d "ask"
    last ← float_field c d "last"
    volume ← float_of c (field_or d "volume" (field_or d "volume_real" (number (lit 0))))
    new_tick (record {
      symbol = symbol;
      time = time;
      bid = bid;
      ask = ask;
      last = last;
      volume = volume;
    })

  -- `map_tick(raw, symbol)`
  unfoldable pub map_tick : String → Raw F → Result (Tick F)
  map_tick symbol raw = do
    d ← as_mapping ("tick(" <> (symbol <> ")")) raw
    payload ("Invalid tick payload for " <> quoted symbol) (tick_of symbol d)

  unfoldable pub candle_of : String → Timeframe → Fields F → Result (Candle F)
  candle_of symbol timeframe d = do
    time ← utc_from_epoch c (field_or d "time" (integer 0))
    open_ ← float_field c d "open"
    high ← float_field c d "high"
    low ← float_field c d "low"
    close ← float_field c d "close"
    tick_volume ← int_of c (field_or d "tick_volume" (field_or d "tick_volume_" (integer 0)))
    spread ← int_field c d "spread"
    real_volume ← float_field c d "real_volume"
    new_candle (record {
      symbol = symbol;
      timeframe = timeframe;
      time = time;
      open_ = open_;
      high = high;
      low = low;
      close = close;
      tick_volume = tick_volume;
      spread = spread;
      real_volume = real_volume;
    })

  -- `map_candle(row, symbol, timeframe)`
  unfoldable pub map_candle : String → Timeframe → Raw F → Result (Candle F)
  map_candle symbol timeframe row = do
    d ← row_fields ("candle(" <> (symbol <> ")")) row
    payload ("Invalid candle payload for " <> quoted symbol) (candle_of symbol timeframe d)

  -- `if not candles: raise`
  unfoldable pub some_candles : String → List (Candle F) → Result (List (Candle F))
  some_candles symbol candles =
      if is_empty candles
      then data_error ("No candles returned for " <> (quoted symbol <> "."))
      else ok candles

  -- `map_candles(rows, symbol, timeframe)`
  unfoldable pub map_candles : String → Timeframe → Rows F → Result (List (Candle F))
  map_candles symbol timeframe raw = do
    items ← candle_rows quoted symbol raw
    candles ← map_rows (map_candle symbol timeframe) items
    some_candles symbol candles

  unfoldable pub symbol_info_of : String → Fields F → Result (SymbolInfo F)
  symbol_info_of symbol d = do
    digits ← int_field c d "digits"
    point ← float_field c d "point"
    spread ← int_field c d "spread"
    trade_mode ← int_field c d "trade_mode"
    min_volume ← float_field c d "volume_min"
    max_volume ← float_field c d "volume_max"
    volume_step ← float_field c d "volume_step"
    contract_size ← float_field c d "trade_contract_size"
    new_symbol_info (record {
      symbol = c.to_str (value_or c (field_or d "name" (text symbol)) (text symbol));
      description = str_field c d "description";
      currency_base = str_field c d "currency_base";
      currency_profit = str_field c d "currency_profit";
      digits = digits;
      point = point;
      spread = spread;
      trade_mode = trade_mode;
      min_volume = min_volume;
      max_volume = max_volume;
      volume_step = volume_step;
      contract_size = contract_size;
    })

  -- `map_symbol_info(raw, symbol)`
  unfoldable pub map_symbol_info : String → Raw F → Result (SymbolInfo F)
  map_symbol_info symbol raw = do
    d ← as_mapping ("symbol_info(" <> (symbol <> ")")) raw
    payload ("Invalid symbol_info payload for " <> quoted symbol) (symbol_info_of symbol d)
