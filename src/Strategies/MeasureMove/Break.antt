-- ===== src/Strategies/MeasureMove/Break.antt =====
-- mt5_agent/strategies/measure_move.py: what the Donchian breakout reads off the candles.
use llm_mt5_agent.Prelude.{
  ltb, Bool-cases, length, init, All, is_blank, String, ◌≡◌, refl, ap, inl, inr, true, false, ◌&&◌,
  List, [], ◌∷◌, ◌++◌, map, arith, leb, drop, length-append, ◌∙◌, ◌+◌, ◌-◌, ◌≤◌, ℕ, ◌⊎◌,
}
use llm_mt5_agent.Python.Bind.{◌>>=◌, Yields, Yields-map}
use llm_mt5_agent.Python.Errors.{ok}
use llm_mt5_agent.Python.Float.{Float, ◌<?◌, ◌≤?◌, lit, Datetime, IsOrdered, HasLiterals}
use llm_mt5_agent.Domain.Market.{Candle, last_of, max_of, min_of}
use llm_mt5_agent.Domain.Strategy.{
  Direction, long, short, flat, direction_value, Setup, Fact, MarketContext, StrategySignal,
  new_setup, new_strategy_signal,
}
use llm_mt5_agent.Strategies.MeasureMove.{
  MeasureMoveParams, MeasureMove, direction_lower, max_from, min_from, highest, lowest, signal,
  break_of, judge, window_of, latest_of, measure, analyze, breakout_setup, donchian_breakout,
}

module _ {F : Type 0} ⦃fl : Float F⦄ where
  -- Every item is below the price; every item is above it.
  abbrev pub AllBelow : F → List F → Type 0
  AllBelow close xs = All (λ x. (x <? close) ≡ true) xs

  abbrev pub AllAbove : F → List F → Type 0
  AllAbove close xs = All (λ x. (close <? x) ≡ true) xs

  abbrev pub AtLeastZero : List F → Type 0
  AtLeastZero xs = All (λ x. (lit 0 ≤? x) ≡ true) xs

  -- What each direction says of the earlier candles: LONG, the close is beyond every high; SHORT,
  -- it is not, and it is beyond every low; FLAT, it is inside both ways.
  abbrev pub Breaks : F → List (Candle F) → Direction → Type 0
  Breaks close prior long = AllBelow close (map (λ d. d.high) prior)
  Breaks close prior short =
      (¬ AllBelow close (map (λ d. d.high) prior)) × AllAbove close (map (λ d. d.low) prior)
  Breaks close prior flat =
      (¬ AllBelow close (map (λ d. d.high) prior)) × (¬ AllAbove close (map (λ d. d.low) prior))

  -- The greatest item is below the price exactly when all are.
  max_from-below_all :
      IsOrdered fl
      → (best close : F) (xs : List F) → AtLeastZero (best ∷ xs)
      → (max_from best xs <? close) ≡ true
      → AllBelow close (best ∷ xs)
  unfolding max_from max_of
  max_from-below_all o best close [] p h = (h, tt)
  max_from-below_all o best close (x ∷ xs) (pb, (px, ps)) h = elim (Bool-cases (best <? x)) [
    | inl e ↦
        let rest = max_from-below_all o x close xs (px, ps) (rw e at h) in
        (o.lt_trans best x close e rest.0, rest)
    | inr e ↦
        let rest = max_from-below_all o best close xs (pb, ps) (rw e at h) in
        (rest.0, (o.lt_of_le x best close (o.le_of_not_lt best x (lit 0) pb px e) rest.0, rest.1))
  ]

  max_from-below :
      (best close : F) (xs : List F)
      → AllBelow close (best ∷ xs)
      → (max_from best xs <? close) ≡ true
  unfolding max_from max_of
  max_from-below best close [] (h, _) = h
  max_from-below best close (x ∷ xs) (hb, (hx, hs)) = elim (Bool-cases (best <? x)) [
    | inl e ↦ rw e (max_from-below x close xs (hx, hs))
    | inr e ↦ rw e (max_from-below best close xs (hb, hs))
  ]

  min_from-above_all :
      IsOrdered fl
      → (best close : F) (xs : List F) → AtLeastZero (best ∷ xs)
      → (close <? min_from best xs) ≡ true
      → AllAbove close (best ∷ xs)
  unfolding min_from min_of
  min_from-above_all o best close [] p h = (h, tt)
  min_from-above_all o best close (x ∷ xs) (pb, (px, ps)) h = elim (Bool-cases (x <? best)) [
    | inl e ↦
        let rest = min_from-above_all o x close xs (px, ps) (rw e at h) in
        (o.lt_trans close x best rest.0 e, rest)
    | inr e ↦
        let rest = min_from-above_all o best close xs (pb, ps) (rw e at h) in
        (rest.0, (o.lt_of_lt close best x rest.0 (o.le_of_not_lt x best (lit 0) px pb e), rest.1))
  ]

  min_from-above :
      (best close : F) (xs : List F)
      → AllAbove close (best ∷ xs)
      → (close <? min_from best xs) ≡ true
  unfolding min_from min_of
  min_from-above best close [] (h, _) = h
  min_from-above best close (x ∷ xs) (hb, (hx, hs)) = elim (Bool-cases (x <? best)) [
    | inl e ↦ rw e (min_from-above x close xs (hx, hs))
    | inr e ↦ rw e (min_from-above best close xs (hb, hs))
  ]

  -- The direction that `analyze` takes satisfies its description.
  break_of-Breaks :
      IsOrdered fl
      → (close : F) (d : Candle F) (rest : List (Candle F))
      → AtLeastZero (map (λ x. x.high) (d ∷ rest))
      → AtLeastZero (map (λ x. x.low) (d ∷ rest))
      → Breaks close (d ∷ rest) (
          break_of close
            (max_from d.high (map (λ x. x.high) rest))
            (min_from d.low (map (λ x. x.low) rest)))
  unfolding break_of
  break_of-Breaks o close d rest ph pl =
      let hs = map (λ x. x.high) rest in
      let ls = map (λ x. x.low) rest in
      elim (Bool-cases (max_from d.high hs <? close)) [
        | inl e ↦ rw e (max_from-below_all o d.high close hs ph e)
        | inr e ↦ elim (Bool-cases (close <? min_from d.low ls)) [
          | inl k ↦
              rw (e, k)
                (
                  (λ a. cc (max_from-below d.high close hs a)),
                  min_from-above_all o d.low close ls pl k,
                )
          | inr k ↦
              rw (e, k)
                (
                  (λ a. cc (max_from-below d.high close hs a)),
                  (λ a. cc (min_from-above d.low close ls a)),
                )
        ]
      ]

  latest_of-append :
      (prior : List (Candle F)) (latest : Candle F) → latest_of (prior ++ (latest ∷ [])) ≡ ok latest
  unfolding latest_of last_of
  latest_of-append [] latest = refl
  latest_of-append (x ∷ []) latest = refl
  latest_of-append (x ∷ y ∷ xs) latest = latest_of-append (y ∷ xs) latest

  init-append :
      (prior : List (Candle F)) (latest : Candle F) → init (prior ++ (latest ∷ [])) ≡ prior
  init-append [] latest = refl
  init-append (x ∷ []) latest = refl
  init-append (x ∷ y ∷ xs) latest = ap (λ r. x ∷ r) (init-append (y ∷ xs) latest)

  -- A signal is made of valid fields: FLAT without confidence, or with the configured one.
  signal-ok :
      (m : MeasureMove F) (c : MarketContext F) (clock : Datetime) (direction : Direction)
      (confidence : F) (setups : List (Setup F)) (facts : List (String × Fact F))
      (rationale : String)
      → is_blank m.name ≡ false
      → (lit 0 ≤? confidence && confidence ≤? lit 1) ≡ true
      → Yields
          (λ s. (s.direction ≡ direction) × (s.confidence ≡ confidence))
          (signal m c clock direction confidence setups facts rationale)
  unfolding signal new_strategy_signal ◌>>=◌
  signal-ok m c clock direction confidence setups facts rationale h k = rw (h, k) (refl, refl)

  -- The confidence of a signal of that direction.
  unfoldable pub confidence_at : MeasureMoveParams F → Direction → F
  confidence_at p flat = lit 0
  confidence_at p _ = p.breakout_confidence

  judge-donchian :
      HasLiterals fl
      → (p : MeasureMoveParams F) (c : MarketContext F) (clock : Datetime)
        (window : List (Candle F)) (latest : Candle F) (facts : List (String × Fact F))
        (direction : Direction)
      → (lit 0 ≤? p.breakout_confidence && p.breakout_confidence ≤? lit 1) ≡ true
      → Yields
          (λ s. (s.direction ≡ direction) × (s.confidence ≡ confidence_at p direction))
          (judge (donchian_breakout p) c clock window latest facts direction)
  unfolding judge donchian_breakout confidence_at breakout_setup new_setup direction_lower
      direction_value ◌>>=◌ is_blank signal new_strategy_signal
  judge-donchian l p c clock window latest facts flat h =
      signal-ok (donchian_breakout p) c clock flat (lit 0) [] _ _ refl (
        rw (l.le_lit 0 0 (omega arith) (omega arith), l.le_lit 0 1 (omega arith) (omega arith))
          refl)
  judge-donchian l p c clock window latest facts long h = rw h (refl, refl)
  judge-donchian l p c clock window latest facts short h = rw h (refl, refl)

  abbrev Judged : MeasureMoveParams F → Direction → StrategySignal F → Type 0
  Judged p direction s = (s.direction ≡ direction) × (s.confidence ≡ confidence_at p direction)

  -- The signal follows the break of the price out of the range of the earlier candles.
  abbrev pub FollowsBreak : MeasureMoveParams F → F → List (Candle F) → StrategySignal F → Type 0
  FollowsBreak p close prior s =
      Breaks close prior s.direction × (s.confidence ≡ confidence_at p s.direction)

  Judged-FollowsBreak :
      (p : MeasureMoveParams F) (close : F) (prior : List (Candle F)) (direction : Direction)
      → Breaks close prior direction
      → (s : StrategySignal F) → Judged p direction s
      → FollowsBreak p close prior s
  Judged-FollowsBreak p close prior direction b s (k, j) = rw k (b, j)

  judge-FollowsBreak :
      HasLiterals fl
      → (p : MeasureMoveParams F) (c : MarketContext F) (clock : Datetime)
        (window : List (Candle F)) (latest : Candle F) (facts : List (String × Fact F))
        (direction : Direction) (prior : List (Candle F))
      → (lit 0 ≤? p.breakout_confidence && p.breakout_confidence ≤? lit 1) ≡ true
      → Breaks latest.close prior direction
      → Yields
          (FollowsBreak p latest.close prior)
          (judge (donchian_breakout p) c clock window latest facts direction)
  judge-FollowsBreak l p c clock window latest facts direction prior h b =
      let j = judge (donchian_breakout p) c clock window latest facts direction in
      Yields-map (Judged p direction) (FollowsBreak p latest.close prior) j
        (Judged-FollowsBreak p latest.close prior direction b)
        (judge-donchian l p c clock window latest facts direction h)

  measure-Breaks :
      HasLiterals fl
      → IsOrdered fl
      → (p : MeasureMoveParams F) (c : MarketContext F) (clock : Datetime)
        (facts : List (String × Fact F)) (window : List (Candle F)) (d : Candle F)
        (rest : List (Candle F)) (latest : Candle F)
      → (lit 0 ≤? p.breakout_confidence && p.breakout_confidence ≤? lit 1) ≡ true
      → AtLeastZero (map (λ x. x.high) (d ∷ rest))
      → AtLeastZero (map (λ x. x.low) (d ∷ rest))
      → window ≡ (d ∷ rest) ++ (latest ∷ [])
      → Yields
          (FollowsBreak p latest.close (d ∷ rest))
          (measure (donchian_breakout p) c clock facts window)
  unfolding measure highest lowest ◌>>=◌
  measure-Breaks l o p c clock facts window d rest latest h ph pl e =
      rw (e, latest_of-append (d ∷ rest) latest, init-append (d ∷ rest) latest)
        (judge-FollowsBreak l p c clock _ latest _ _ (d ∷ rest) h
          (break_of-Breaks o latest.close d rest ph pl))

  -- The candles before the latest one that the strategy compares with it: with it, `lookback` in all,
  -- or all there are where there are no more than that.
  abbrev pub IsPrior : ℕ → List (Candle F) → List (Candle F) → Type 0
  IsPrior lookback older prior =
      (length prior + 1 ≡ lookback) ⊎ ((older ≡ []) × (length prior + 1 ≤ lookback))

  drop-append : (older prior : List (Candle F)) → drop (length older) (older ++ prior) ≡ prior
  drop-append [] prior = refl
  drop-append (x ∷ older) prior = drop-append older prior

  window_of-prior :
      (p : MeasureMoveParams F) (older : List (Candle F)) (d : Candle F) (rest : List (Candle F))
      (latest : Candle F)
      → IsPrior p.lookback older (d ∷ rest)
      → window_of (donchian_breakout p) (older ++ ((d ∷ rest) ++ (latest ∷ [])))
        ≡ (d ∷ rest) ++ (latest ∷ [])
  unfolding donchian_breakout
  window_of-prior p older d rest latest h =
      let window = (d ∷ rest) ++ (latest ∷ []) in
      let size : length (older ++ window) ≡ length older + (length rest + 2) =
        omega (arith, length-append older window, length-append rest (latest ∷ [])) in
      let enough : leb 2 (length (older ++ window)) ≡ true = ground (arith, size) in
      let cut : length (older ++ window) - p.lookback ≡ length older = elim h [
        | inl k ↦ omega (arith, size, k)
        | inr k ↦ omega (arith, size, ap length k.0, k.1)
      ] in
      rw (enough, cut) (drop-append older window)

  -- With enough candles, prices that are no NaN, and a configured confidence between 0 and 1, where
  -- the candles end in at least one earlier candle and the latest one, and the earlier ones are, with
  -- the latest, the last `lookback` of all, or all there are if those are no more: the Donchian strategy
  -- returns a signal, LONG exactly for a close above every high of the earlier ones, SHORT for one that
  -- is not and is below every low of them, else FLAT. Its confidence is the configured one, and 0
  -- when FLAT.
  pub analyze-Breaks :
      HasLiterals fl
      → IsOrdered fl
      → (p : MeasureMoveParams F) (c : MarketContext F) (clock : Datetime) (older : List (Candle F))
        (d : Candle F) (rest : List (Candle F)) (latest : Candle F)
      → (lit 0 ≤? p.breakout_confidence && p.breakout_confidence ≤? lit 1) ≡ true
      → ltb (length c.snapshot.candles) p.min_candles ≡ false
      → AtLeastZero (map (λ x. x.high) (d ∷ rest))
      → AtLeastZero (map (λ x. x.low) (d ∷ rest))
      → c.snapshot.candles ≡ older ++ ((d ∷ rest) ++ (latest ∷ []))
      → IsPrior p.lookback older (d ∷ rest)
      → Yields (FollowsBreak p latest.close (d ∷ rest)) (analyze (donchian_breakout p) c clock)
  unfolding analyze donchian_breakout
  analyze-Breaks l o p c clock older d rest latest h e ph pl w k = rw e (
      measure-Breaks l o p c clock _ _ d rest latest h ph pl
        (ap (window_of (donchian_breakout p)) w ∙ window_of-prior p older d rest latest k))
