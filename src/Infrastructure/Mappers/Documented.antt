-- ===== src/Infrastructure/Mappers/Documented.antt =====
-- mt5_agent/infrastructure/mt5: the mappers together.
use llm_mt5_agent.Prelude.{is_blank, String, ◌≡◌, false}
use llm_mt5_agent.Python.Ends.{Ends}
use llm_mt5_agent.Python.Float.{Float}
use llm_mt5_agent.Domain.Market.{Timeframe}
use llm_mt5_agent.Infrastructure.Mappers.{Raw, Rows, Conversions}
use llm_mt5_agent.Infrastructure.Mappers.Account.{map_account_info, map_terminal_info}
use llm_mt5_agent.Infrastructure.Mappers.Market.{map_tick, map_candles, map_symbol_info}
use llm_mt5_agent.Infrastructure.Mappers.Trading.{map_position, map_order, map_deal}
use llm_mt5_agent.Infrastructure.Mappers.Reading.{DataError, IsDocumented}
use llm_mt5_agent.Infrastructure.Mappers.Valid.{
  IsTick, IsPosition, IsOrder, IsDeal, map_account_info-Ends, map_terminal_info-Ends,
}
use llm_mt5_agent.Infrastructure.Mappers.Mapped.{
  map_tick-Ends, AreCandles, map_candles-Ends, map_symbol_info-Ends,
}
use llm_mt5_agent.Infrastructure.Mappers.Collections.{
  RowError, map_position-Ends, map_order-Ends, map_deal-Ends,
}

module _ {F : Type 0} ⦃fl : Float F⦄ (quoted : String → String) (c : Conversions F)
    (d : IsDocumented c) where
  -- For whatever the terminal reports, where int, float and fromtimestamp raise what Python documents:
  -- a tick has a symbol and positive quotes that are not crossed; candles are at least one, one for
  -- each row in order, with positive prices that the high and the low enclose; a position and an order
  -- have a ticket, a symbol and a size, a deal a ticket and a size; the record of a symbol has a symbol
  -- that is not blank, while those of the account and the terminal have no rules to satisfy; and each
  -- mapper raises nothing but MT5DataError or OverflowError, where that of a position may also raise
  -- TypeError.
  pub mappers-End :
      (symbol what : String) (timeframe : Timeframe) (raw : Raw F) (items : Rows F)
      → Ends (IsTick symbol) DataError (map_tick quoted c symbol raw)
        × Ends
            (AreCandles quoted c d symbol timeframe items)
            DataError
            (map_candles quoted c symbol timeframe items)
        × Ends IsPosition RowError (map_position c raw)
        × Ends IsOrder DataError (map_order c what raw)
        × Ends IsDeal DataError (map_deal c raw)
        × Ends (λ y. is_blank y.symbol ≡ false) DataError (map_symbol_info quoted c symbol raw)
        × Ends (λ x. Unit {0}) DataError (map_account_info c raw)
        × Ends (λ x. Unit {0}) DataError (map_terminal_info c raw)
  mappers-End symbol what timeframe raw items = (
    map_tick-Ends quoted c d symbol raw,
    map_candles-Ends quoted c d symbol timeframe items,
    map_position-Ends c d raw,
    map_order-Ends c d what raw,
    map_deal-Ends c d raw,
    map_symbol_info-Ends quoted c d symbol raw,
    map_account_info-Ends c d raw,
    map_terminal_info-Ends c d raw,
  )
