-- ===== src/Strategies/MeasureMove.antt =====
-- mt5_agent/strategies/measure_move.py: the pipeline with its hooks, and the Donchian breakout.
pub mod Break
use llm_mt5_agent.Prelude.{
  ltb, leb, if◌then◌else◌, length, last_items, init, str_ℕ, ℕ, String, ◌<>◌, Bool, true, not, ◌&&◌,
  none, some, List, [], ◌∷◌, ◌++◌, map,
}
use llm_mt5_agent.Python.Bind.{◌>>=◌, ◌>>◌}
use llm_mt5_agent.Python.Errors.{ExceptionClass, value_error, Result, ok, raise, raise_if}
use llm_mt5_agent.Python.Float.{Float, ◌<?◌, ◌≤?◌, lit, Datetime}
use llm_mt5_agent.Domain.Market.{Candle, last_of, max_of, min_of}
use llm_mt5_agent.Domain.Strategy.{
  Direction, long, short, flat, direction_value, Setup, Fact, MarketContext, StrategySignal,
  new_setup, new_strategy_signal,
}
use llm_mt5_agent.Strategies.Strategy.{Strategy}

pub record MeasureMoveParams (F : Type 0) : Type 0 where
  pub lookback : ℕ
  pub min_candles : ℕ
  pub breakout_confidence : F

-- The class: its name, its parameters and the hooks that a subclass may override.
pub record MeasureMove (F : Type 0) : Type 0 where
  pub name : String
  pub params : MeasureMoveParams F
  pub confirm : Candle F → List (Candle F) → Direction → Bool
  pub confidence_of : Direction → Candle F → List (String × Fact F) → F
  pub setup_for : Direction → Candle F → List (String × Fact F) → Result (Setup F)

-- `direction.value.lower()`
unfoldable pub direction_lower : Direction → String
direction_lower long = "long"
direction_lower short = "short"
direction_lower flat = "flat"

-- `"high" if direction == Direction.LONG else "low"`
abbrev pub side_text : Direction → String
side_text long = "high"
side_text _ = "low"

module _ {F : Type 0} ⦃fl : Float F⦄ where
  unfoldable pub new_measure_move_params : MeasureMoveParams F → Result (MeasureMoveParams F)
  new_measure_move_params p = do
    raise_if (ltb p.lookback 2) "lookback must be >= 2"
    raise_if (ltb p.min_candles 1) "min_candles must be >= 1"
    raise_if (not (lit 0 ≤? p.breakout_confidence && p.breakout_confidence ≤? lit 1))
        "breakout_confidence must be 0..1"
    ok p

  -- The builtins `max` and `min` of a generator: the first item, unless a later one is beyond it.
  unfoldable pub max_from : F → List F → F
  unfolding max_of
  max_from best [] = best
  max_from best (x ∷ xs) = max_from (max_of best x) xs

  unfoldable pub min_from : F → List F → F
  unfolding min_of
  min_from best [] = best
  min_from best (x ∷ xs) = min_from (min_of best x) xs

  unfoldable pub highest : List (Candle F) → Result F
  highest [] = raise (record { class = value_error; message = "max() iterable argument is empty" })
  highest (c ∷ cs) = ok (max_from c.high (map (λ d. d.high) cs))

  unfoldable pub lowest : List (Candle F) → Result F
  lowest [] = raise (record { class = value_error; message = "min() iterable argument is empty" })
  lowest (c ∷ cs) = ok (min_from c.low (map (λ d. d.low) cs))

  -- `self._signal(context, direction, confidence, setups, facts, rationale)`
  unfoldable pub signal :
      MeasureMove F
      → MarketContext F
      → Datetime
      → Direction
      → F
      → List (Setup F)
      → List (String × Fact F)
      → String
      → Result (StrategySignal F)
  signal m c clock direction confidence setups facts rationale = new_strategy_signal (record {
    strategy = m.name;
    symbol = c.symbol;
    timeframe = c.timeframe;
    direction = direction;
    confidence = confidence;
    setups = setups;
    facts = facts;
    rationale = rationale;
    generated_at = clock;
  })

  -- The direction of the break of `latest.close` out of the range.
  unfoldable pub break_of : F → F → F → Direction
  break_of close hi lo = if hi <? close then long else if close <? lo then short else flat

  -- `analyze` once the range is measured and the facts are gathered.
  unfoldable pub judge :
      MeasureMove F
      → MarketContext F
      → Datetime
      → List (Candle F)
      → Candle F
      → List (String × Fact F)
      → Direction
      → Result (StrategySignal F)
  judge m c clock window latest facts flat =
      signal m c clock flat (lit 0) [] (facts ++ (("skip", Fact.text "no structure break") ∷ []))
        "No N-bar structure break: observation only."
  judge m c clock window latest facts direction =
      if not (m.confirm latest window direction)
      then signal m c clock flat (lit 0) [] (facts ++ (("skip", Fact.text "unconfirmed") ∷ []))
          "Breakout rejected by confirm() hook: observation only."
      else (do
        setup ← m.setup_for direction latest facts
        signal m c clock direction (m.confidence_of direction latest facts) (setup ∷ []) facts (
            setup.name
            <> (": close "
                <> (fl.str latest.close <> (" broke prior " <> (side_text direction <> "."))))))

  -- The facts of every run.
  abbrev pub base_facts : MeasureMove F → List (Candle F) → List (String × Fact F)
  base_facts m candles =
      ("candles", Fact.count (length candles)) ∷ ("lookback", Fact.count m.params.lookback) ∷ []

  -- `window` and `latest` of `analyze`
  abbrev pub window_of : MeasureMove F → List (Candle F) → List (Candle F)
  window_of m candles =
      if leb 2 (length candles) then last_items m.params.lookback candles else candles

  unfoldable pub latest_of : List (Candle F) → Result (Candle F)
  latest_of candles = elim (last_of candles) [
    | none ↦
        raise (record {
          class = ExceptionClass.other "IndexError";
          message = "list index out of range";
        })
    | some c ↦ ok c
  ]

  -- `analyze` from `window` on.
  unfoldable pub measure :
      MeasureMove F
      → MarketContext F
      → Datetime
      → List (String × Fact F)
      → List (Candle F)
      → Result (StrategySignal F)
  measure m c clock facts window = do
    latest ← latest_of window
    hi ← highest (init window)
    lo ← lowest (init window)
    judge m c clock window latest
        (facts
          ++ (("window", Fact.count (length window))
              ∷ ("prior_high", Fact.number hi)
              ∷ ("prior_low", Fact.number lo)
              ∷ ("impulse_range", Fact.number (fl.sub hi lo))
              ∷ ("latest_close", Fact.number latest.close)
              ∷ ("latest_high", Fact.number latest.high)
              ∷ ("latest_low", Fact.number latest.low)
              ∷ []))
        (break_of latest.close hi lo)

  -- `MeasureMoveStrategy.analyze(context)`
  unfoldable pub analyze : MeasureMove F → MarketContext F → Datetime → Result (StrategySignal F)
  analyze m c clock =
      let candles = c.snapshot.candles in
      if ltb (length candles) m.params.min_candles
      then signal m c clock flat (lit 0) []
          (base_facts m candles
            ++ (("skip", Fact.text ("need >= " <> (str_ℕ m.params.min_candles <> " candles")))
                ∷ []))
          "Insufficient data: observation only."
      else measure m c clock (base_facts m candles) (window_of m candles)

  -- `setup_for` of the class
  unfoldable pub breakout_setup : String → F → Direction → Result (Setup F)
  breakout_setup name confidence direction = new_setup (record {
    identifier = name <> (":breakout:" <> direction_lower direction);
    name = "StructureBreakout";
    direction = direction;
    confidence = confidence;
    description = "N-bar close break (" <> (direction_value direction <> ").");
  })

  -- `DonchianBreakoutStrategy(params)`, which overrides no hook
  unfoldable pub donchian_breakout : MeasureMoveParams F → MeasureMove F
  donchian_breakout p = record {
    name = "donchian_breakout";
    params = p;
    confirm = λ latest window direction. true;
    confidence_of = λ direction latest facts. p.breakout_confidence;
    setup_for = λ direction latest facts.
        breakout_setup "donchian_breakout" p.breakout_confidence direction;
  }

  unfoldable pub measure_move_strategy : MeasureMove F → Strategy F
  measure_move_strategy m = record { name = m.name; analyze = analyze m }
