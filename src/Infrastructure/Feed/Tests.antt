-- ===== src/Infrastructure/Feed/Tests.antt =====
-- The adapters on a terminal that answers one row to every question, and whose world is the number of
-- candles that it was asked for last.
use llm_mt5_agent.Prelude.{
  ℤ, pos, ltb_ℤ, String, ◌≡◌, refl, is_blank, subst, Bool, true, false, ◌||◌, Option, some, [], ◌∷◌,
}
use llm_mt5_agent.Python.Step.{Step, pure}
use llm_mt5_agent.Python.Errors.{ExceptionClass, ok}
use llm_mt5_agent.Python.Decimal.{Decimal, decimal}
use llm_mt5_agent.Python.Ends.{Ends}
use llm_mt5_agent.Python.Obeys.{Obeys, pure-Obeys}
use llm_mt5_agent.Domain.Market.{Timeframe}
use llm_mt5_agent.Infrastructure.Mappers.{integer, text, Raw, mapping, indexed, Rows, rows}
use llm_mt5_agent.Infrastructure.Mappers.Account.{map_account_info, map_terminal_info}
use llm_mt5_agent.Infrastructure.Mappers.Market.{map_tick, map_candles, map_symbol_info}
use llm_mt5_agent.Infrastructure.Mappers.Trading.{map_position, map_order, map_deal}
use llm_mt5_agent.Infrastructure.Mappers.Reading.{DataError}
use llm_mt5_agent.Infrastructure.Mappers.Valid.{IsTick, IsPosition, IsOrder, IsDeal}
use llm_mt5_agent.Infrastructure.Mappers.Mapped.{AreCandles}
use llm_mt5_agent.Infrastructure.Mappers.Collections.{RowError}
use llm_mt5_agent.Infrastructure.Mappers.Documented.{mappers-End}
use llm_mt5_agent.Infrastructure.Feed.Market.{MarketModule, max_candles, get_snapshot}
use llm_mt5_agent.Infrastructure.Feed.Trading.{TradingModule, TradingFeed}
use llm_mt5_agent.Infrastructure.Feed.Guard.{FeedError, IsOutside}
use llm_mt5_agent.Infrastructure.Feed.MarketObeys.{MarketAnswers, IsMarketModule, MarketGuard}
use llm_mt5_agent.Infrastructure.Feed.Snapshot.{IsSnapshot, get_snapshot-Obeys}
use llm_mt5_agent.Infrastructure.Feed.TradingObeys.{TradingAnswers, TradingGuard}
use llm_mt5_agent.Samples.{quoted}
use llm_mt5_agent.Samples.Terminal.{conversions, conversions-IsDocumented}

-- One row that each of the mappers accepts.
abbrev row : Raw Decimal
row = mapping (
    ("ticket", integer 7)
    ∷ ("symbol", text "EURUSD")
    ∷ ("time", integer 1)
    ∷ ("volume", integer 1)
    ∷ ("open", integer 2)
    ∷ ("high", integer 3)
    ∷ ("low", integer 1)
    ∷ ("close", integer 2)
    ∷ ("bid", integer 2)
    ∷ ("ask", integer 2)
    ∷ [])

abbrev one_row : Rows Decimal
one_row = rows (row ∷ [])

-- The same fields as a row of numpy.
abbrev rates : Rows Decimal
rates = rows (
    indexed "void" (
      ("time", integer 1)
      ∷ ("open", integer 2)
      ∷ ("high", integer 3)
      ∷ ("low", integer 1)
      ∷ ("close", integer 2)
      ∷ [])
    ∷ [])

abbrev market_module : MarketModule Decimal ℤ
market_module = record {
  symbol_info_tick = λ name. pure row;
  copy_rates_from_pos = λ name timeframe start count w. (ok rates, count);
  symbol_info = λ name. pure row;
  last_error = pure "none";
  attribute = λ name. some 1;
}

abbrev AtMost5000 : ℤ → Type 0
AtMost5000 n = ltb_ℤ max_candles n ≡ false

abbrev NoneRaised : ExceptionClass → Type 0
NoneRaised k = ⊥

right_false : (a b : Bool) → (a || b) ≡ false → b ≡ false
right_false false b h = h
right_false true b h = cc

-- What the module answers, whatever it is asked.
abbrev market_answers : MarketAnswers Decimal
market_answers = record {
  of_tick = λ name raw. raw ≡ row;
  of_info = λ name raw. raw ≡ row;
  of_rates = λ name timeframe start count raw. raw ≡ rates;
  of_constant = λ name n. n ≡ 1;
}

same_value : {A : Type 0} {a b : A} → some a ≡ some b → b ≡ a
same_value h = cc

market_module-IsMarketModule : IsMarketModule market_answers AtMost5000 NoneRaised market_module
market_module-IsMarketModule = record {
  ticks = λ name h. pure-Obeys refl;
  infos = λ name h. pure-Obeys refl;
  rates = λ name timeframe start count h j k. record {
    obeys = λ s p. (right_false (ltb_ℤ count (pos 1)) (ltb_ℤ max_candles count) k, refl);
  };
  errors = pure-Obeys tt;
  constants = λ name n h. same_value h;
}

abbrev asked : Option (Step ℤ Bool)
asked = some (pure true)

market-IsOutside :
    IsOutside
      (IsMarketModule market_answers AtMost5000 NoneRaised)
      AtMost5000
      NoneRaised
      asked
      (ok market_module)
market-IsOutside = record {
  asks = λ ask h.
      subst (λ m. Obeys AtMost5000 (λ b. Unit {0}) NoneRaised m) (same_ask h) (pure-Obeys tt);
  loads = market_module-IsMarketModule;
}
  where
    same_ask : {a b : Step ℤ Bool} → some a ≡ some b → a ≡ b
    same_ask h = cc

get_snapshot-Obeys_example :
    Obeys
      (MarketGuard market_answers AtMost5000 NoneRaised)
      (IsSnapshot quoted conversions conversions-IsDocumented market_answers "EURUSD" Timeframe.h1
        (pos 100))
      (FeedError NoneRaised)
      (get_snapshot quoted conversions asked
        (ok market_module)
        (pure 5)
        "EURUSD"
        Timeframe.h1
        (pos 100))
get_snapshot-Obeys_example =
    get_snapshot-Obeys quoted conversions conversions-IsDocumented asked (ok market_module)
      market-IsOutside (pure 5) "EURUSD" Timeframe.h1 (pos 100) (pure-Obeys tt)

abbrev trading_module : TradingModule Decimal ℤ
trading_module = record {
  positions_get = λ name. pure one_row;
  orders_get = λ name. pure one_row;
  history_deals_get = λ start end_. pure one_row;
  history_orders_get = λ start end_. pure one_row;
}

abbrev trading_answers : TradingAnswers Decimal
trading_answers = record {
  of_positions = λ name raw. raw ≡ one_row;
  of_orders = λ name raw. raw ≡ one_row;
  of_deals = λ start end_ raw. raw ≡ one_row;
  of_past_orders = λ start end_ raw. raw ≡ one_row;
}

abbrev eurusd : Option String
eurusd = some "EURUSD"

abbrev TradingSound : {A : Type 0} → (A → Type 0) → Step (TradingFeed Decimal ℤ) A → Type 0
TradingSound V m =
    Obeys (TradingGuard trading_answers AtMost5000 NoneRaised) V (FeedError NoneRaised) m

mappers-End_example :
    Ends (IsTick "EURUSD") DataError (map_tick quoted conversions "EURUSD" row)
    × Ends
        (AreCandles quoted conversions conversions-IsDocumented "EURUSD" Timeframe.h1 one_row)
        DataError
        (map_candles quoted conversions "EURUSD" Timeframe.h1 one_row)
    × Ends IsPosition RowError (map_position conversions row)
    × Ends IsOrder DataError (map_order conversions "order" row)
    × Ends IsDeal DataError (map_deal conversions row)
    × Ends
        (λ y. is_blank y.symbol ≡ false)
        DataError
        (map_symbol_info quoted conversions "EURUSD" row)
    × Ends (λ x. Unit {0}) DataError (map_account_info conversions row)
    × Ends (λ x. Unit {0}) DataError (map_terminal_info conversions row)
mappers-End_example =
    mappers-End quoted conversions conversions-IsDocumented "EURUSD" "order" Timeframe.h1 row
      one_row
