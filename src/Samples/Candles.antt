-- ===== src/Samples/Candles.antt =====
-- Candles that break out of their range, and two registered strategies, for the tests.
use llm_mt5_agent.Prelude.{ℕ, none, List, [], ◌∷◌, ◌++◌}
use llm_mt5_agent.Python.Decimal.{Decimal, decimal}
use llm_mt5_agent.Domain.Market.{m5, Candle, MarketSnapshot}
use llm_mt5_agent.Domain.Strategy.{MarketContext}
use llm_mt5_agent.Strategies.Strategy.{Strategy}
use llm_mt5_agent.Strategies.MeasureMove.{
  MeasureMoveParams, donchian_breakout, measure_move_strategy,
}
use llm_mt5_agent.Samples.{dec, noon}

abbrev pub candle : ℕ → ℕ → ℕ → Candle Decimal
candle low high close = record {
  symbol = "EURUSD";
  timeframe = m5;
  time = noon;
  open_ = dec low;
  high = dec high;
  low = dec low;
  close = dec close;
  tick_volume = 10;
  spread = 1;
  real_volume = dec 0;
}

abbrev pub snapshot : List (Candle Decimal) → MarketSnapshot Decimal
snapshot candles = record {
  symbol = "EURUSD";
  timeframe = m5;
  fetched_at = noon;
  candles = candles;
  tick = none;
  symbol_info = none;
}

abbrev pub market : List (Candle Decimal) → MarketContext Decimal
market candles = record {
  symbol = "EURUSD";
  timeframe = m5;
  snapshot = snapshot candles;
  account_state = none;
}

abbrev pub params : MeasureMoveParams Decimal
params = record { lookback = 20; min_candles = 2; breakout_confidence = dec 60_000 }

abbrev pub earlier : List (Candle Decimal)
earlier = candle 100_000 110_000 105_000 ∷ candle 101_000 111_000 106_000 ∷ []

abbrev pub breakout : List (Candle Decimal)
breakout = earlier ++ (candle 105_000 113_000 112_000 ∷ [])

abbrev pub registered : List (Strategy Decimal)
registered = measure_move_strategy (donchian_breakout params) ∷ []
