-- ===== src/Domain/Market.antt =====
-- mt5_agent/domain/market.py
use llm_mt5_agent.Prelude.{
  ℕ, String, is_blank, Option, none, some, List, [], ◌∷◌, ◌||◌, if◌then◌else◌,
}
use llm_mt5_agent.Python.Errors.{Result, ok, raise_if, ◌>>◌}
use llm_mt5_agent.Python.Float.{Float, ◌<?◌, ◌≤?◌, lit, Datetime}

pub data Timeframe : Type 0 where
  m1 m5 m15 m30 h1 h4 d1 w1 mn1 : Timeframe

-- `timeframe.value`
unfoldable pub timeframe_value : Timeframe → String
timeframe_value m1 = "M1"
timeframe_value m5 = "M5"
timeframe_value m15 = "M15"
timeframe_value m30 = "M30"
timeframe_value h1 = "H1"
timeframe_value h4 = "H4"
timeframe_value d1 = "D1"
timeframe_value w1 = "W1"
timeframe_value mn1 = "MN1"

pub record Tick (F : Type 0) : Type 0 where
  pub symbol : String
  pub time : Datetime
  pub bid : F
  pub ask : F
  pub last : F
  pub volume : F

pub record Candle (F : Type 0) : Type 0 where
  pub symbol : String
  pub timeframe : Timeframe
  pub time : Datetime
  pub open_ : F
  pub high : F
  pub low : F
  pub close : F
  pub tick_volume : ℕ
  pub spread : ℕ
  pub real_volume : F

pub record SymbolInfo (F : Type 0) : Type 0 where
  pub symbol : String
  pub description : String
  pub currency_base : String
  pub currency_profit : String
  pub digits : ℕ
  pub point : F
  pub spread : ℕ
  pub trade_mode : ℕ
  pub min_volume : F
  pub max_volume : F
  pub volume_step : F
  pub contract_size : F

pub record MarketSnapshot (F : Type 0) : Type 0 where
  pub symbol : String
  pub timeframe : Timeframe
  pub fetched_at : Datetime
  pub candles : List (Candle F)
  pub tick : Option (Tick F)
  pub symbol_info : Option (SymbolInfo F)

-- `xs[-1] if xs else None`
unfoldable pub last_of {ℓ} : {A : Type ℓ} → List A → Option A
last_of [] = none
last_of (x ∷ []) = some x
last_of (x ∷ y ∷ xs) = last_of (y ∷ xs)

unfoldable pub latest_close : {F : Type 0} → MarketSnapshot F → Option F
latest_close s = elim (last_of s.candles) [ none ↦ none | some c ↦ some c.close ]

module _ {F : Type 0} ⦃fl : Float F⦄ where
  unfoldable pub new_tick : Tick F → Result (Tick F)
  new_tick t = do
    raise_if (is_blank t.symbol) "symbol must be non-empty"
    raise_if (t.bid ≤? lit 0 || t.ask ≤? lit 0) "bid/ask must be positive"
    raise_if (t.ask <? t.bid) "ask must be >= bid"
    ok t

  unfoldable pub tick_spread : Tick F → F
  tick_spread t = fl.sub t.ask t.bid

  -- The builtins `max(a, b)` and `min(a, b)`: the first argument wins a tie.
  unfoldable pub max_of : F → F → F
  max_of a b = if a <? b then b else a

  unfoldable pub min_of : F → F → F
  min_of a b = if b <? a then b else a

  unfoldable pub new_candle : Candle F → Result (Candle F)
  unfolding max_of min_of
  new_candle c = do
    raise_if (is_blank c.symbol) "symbol must be non-empty"
    raise_if (c.open_ ≤? lit 0) "open must be positive"
    raise_if (c.high ≤? lit 0) "high must be positive"
    raise_if (c.low ≤? lit 0) "low must be positive"
    raise_if (c.close ≤? lit 0) "close must be positive"
    raise_if (c.high <? max_of c.open_ c.close || min_of c.open_ c.close <? c.low)
        "high/low inconsistent with open/close"
    ok c

unfoldable pub new_symbol_info : {F : Type 0} → SymbolInfo F → Result (SymbolInfo F)
new_symbol_info x = do raise_if (is_blank x.symbol) "symbol must be non-empty"; ok x

unfoldable pub new_snapshot : {F : Type 0} → MarketSnapshot F → Result (MarketSnapshot F)
new_snapshot s = do raise_if (is_blank s.symbol) "symbol must be non-empty"; ok s
