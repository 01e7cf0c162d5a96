-- ===== src/Strategies/Tests.antt =====
-- The strategies on concrete candles.
use llm_mt5_agent.Prelude.{◌*ℤ◌, is_blank, refl, [], ◌∷◌, inr, arith}
use llm_mt5_agent.Python.Bind.{◌>>=◌, Yields}
use llm_mt5_agent.Python.Decimal.{decimal, decimal-IsOrdered, decimal-HasLiterals}
use llm_mt5_agent.Domain.Market.{last_of}
use llm_mt5_agent.Domain.Strategy.{select_primary}
use llm_mt5_agent.Samples.{dec, noon}
use llm_mt5_agent.Samples.Candles.{candle, market, params, earlier, breakout, registered}
use llm_mt5_agent.Strategies.Null.{null_strategy}
use llm_mt5_agent.Strategies.MeasureMove.{
  highest, latest_of, measure, analyze, donchian_breakout, measure_move_strategy,
}
use llm_mt5_agent.Strategies.MeasureMove.Break.{FollowsBreak, analyze-Breaks}
use llm_mt5_agent.Strategies.Service.{analyze_all, decide}
use llm_mt5_agent.Strategies.Service.Primary.{Chosen, analyze_all-Chosen}
use llm_mt5_agent.Strategies.Service.Triage.{Decides, decide-Decides}
use llm_mt5_agent.Strategies.Service.Reports.{Reports, analyze_all-Reports}

analyze-Breaks_example :
    Yields
      (FollowsBreak params (dec 112_000) earlier)
      (analyze (donchian_breakout params) (market breakout) noon)
unfolding ◌*ℤ◌ donchian_breakout
analyze-Breaks_example =
    analyze-Breaks decimal-HasLiterals decimal-IsOrdered params (market breakout) noon []
      (candle 100_000 110_000 105_000) (candle 101_000 111_000 106_000 ∷ [])
      (candle 105_000 113_000 112_000) refl refl (refl, (refl, tt)) (refl, (refl, tt)) refl
      (inr (refl, omega arith))

-- With `min_candles` 1, a single candle leaves no earlier one: `max()` of nothing raises.
lone_candle_raises :
    ¬ Yields
      (λ s. Unit {0})
      (analyze
        (donchian_breakout
          (record { lookback = 20; min_candles = 1; breakout_confidence = dec 60_000 }))
        (market (candle 100_000 110_000 105_000 ∷ []))
        noon)
unfolding analyze measure latest_of last_of highest ◌>>=◌ donchian_breakout
lone_candle_raises h = h

analyze_all-Reports_example :
    Yields
      (Reports (null_strategy ∷ registered) (market breakout) noon)
      (analyze_all (null_strategy ∷ registered) (market breakout) noon)
unfolding null_strategy measure_move_strategy donchian_breakout is_blank
analyze_all-Reports_example =
    analyze_all-Reports decimal-HasLiterals (null_strategy ∷ registered) (market breakout) noon
      (refl, (refl, tt))

analyze_all-Chosen_example :
    Yields
      (Chosen (null_strategy ∷ registered) (market breakout) noon)
      (analyze_all (null_strategy ∷ registered) (market breakout) noon >>= select_primary)
unfolding null_strategy measure_move_strategy donchian_breakout is_blank
analyze_all-Chosen_example =
    analyze_all-Chosen decimal-HasLiterals null_strategy registered (market breakout) noon
      (refl, (refl, tt))

decide-Decides_example :
    Yields
      (Decides (null_strategy ∷ registered) (market breakout) noon)
      (decide (null_strategy ∷ registered) (market breakout) noon)
unfolding null_strategy measure_move_strategy donchian_breakout is_blank
decide-Decides_example =
    decide-Decides decimal-HasLiterals (null_strategy ∷ registered) (market breakout) noon
      (refl, (refl, tt))
