-- ===== src/Strategies/Service/Primary.antt =====
-- mt5_agent/application/strategy_service.py with select_primary: whose signal an agent acts on.
use llm_mt5_agent.Prelude.{
  All, is_blank, String, ◌≡◌, sym, ap, ◌≢◌, ◌⊎◌, inl, inr, false, List, [], ◌∷◌,
}
use llm_mt5_agent.Python.Bind.{◌>>=◌, Yields, Yields-bind}
use llm_mt5_agent.Python.Errors.{Result, ok, raise}
use llm_mt5_agent.Python.Float.{Float, Datetime, HasLiterals}
use llm_mt5_agent.Domain.Strategy.{flat, MarketContext, StrategySignal, select_primary}
use llm_mt5_agent.Strategies.Strategy.{Strategy}
use llm_mt5_agent.Strategies.Service.{analyze_all}
use llm_mt5_agent.Strategies.Service.Reports.{
  ReportOf, Reports, analyze_all-Reports, PrimaryOf, direction_eq-cases,
  first_directional-PrimaryOf,
}

-- The strategy raised or returned a FLAT signal.
unfoldable pub Quiet : {F : Type 0} → Result (StrategySignal F) → Type 0
Quiet (ok own) = own.direction ≡ flat
Quiet (raise e) = Unit

-- The signal was returned by a strategy, and every strategy before it is quiet.
unfoldable pub Leads :
    {F : Type 0} → List (Strategy F) → MarketContext F → Datetime → StrategySignal F → Type 0
Leads [] c clock s = ⊥
Leads (a ∷ rest) c clock s =
    (a.analyze c clock ≡ ok s) ⊎ (Quiet (a.analyze c clock) × Leads rest c clock s)

-- A signal with a direction leads; for one without all strategies are quiet.
unfoldable pub Chosen :
    {F : Type 0} → List (Strategy F) → MarketContext F → Datetime → StrategySignal F → Type 0
Chosen strategies c clock s =
    ((s.direction ≢ flat) × Leads strategies c clock s)
    ⊎ ((s.direction ≡ flat) × All (λ a. Quiet (a.analyze c clock)) strategies)

module _ {F : Type 0} ⦃fl : Float F⦄ where
  ReportOf-directed :
      (name : String) (r : Result (StrategySignal F)) (g : StrategySignal F)
      → ReportOf name r g
      → g.direction ≢ flat
      → r ≡ ok g
  unfolding ReportOf
  ReportOf-directed name (ok own) g e n = ap ok (sym e)
  ReportOf-directed name (raise e) g h n = absurd (n h.1)

  ReportOf-Quiet :
      (name : String) (r : Result (StrategySignal F)) (g : StrategySignal F)
      → ReportOf name r g
      → g.direction ≡ flat
      → Quiet r
  unfolding ReportOf Quiet
  ReportOf-Quiet name (ok own) g e h = rw e at h
  ReportOf-Quiet name (raise e) g h k = tt

  Chosen-later :
      (a : Strategy F) (rest : List (Strategy F)) (c : MarketContext F) (clock : Datetime)
      (s : StrategySignal F)
      → Quiet (a.analyze c clock)
      → Chosen rest c clock s
      → Chosen (a ∷ rest) c clock s
  unfolding Chosen Leads
  Chosen-later a rest c clock s q (inl (n, l)) = inl (n, inr (q, l))
  Chosen-later a rest c clock s q (inr (e, h)) = inr (e, (q, h))

  PrimaryOf-Chosen :
      (strategies : List (Strategy F)) (c : MarketContext F) (clock : Datetime)
      (first : StrategySignal F) (signals : List (StrategySignal F)) (s : StrategySignal F)
      → first.direction ≡ flat
      → Reports strategies c clock signals
      → PrimaryOf first signals s
      → Chosen strategies c clock s
  unfolding Reports PrimaryOf Chosen Leads
  PrimaryOf-Chosen [] c clock first [] s h r p = inr (rw p h, tt)
  PrimaryOf-Chosen [] c clock first (_ ∷ _) s h r p = absurd r
  PrimaryOf-Chosen (_ ∷ _) c clock first [] s h r p = absurd r
  PrimaryOf-Chosen (a ∷ rest) c clock first (g ∷ gs) s h (r, rs) (inl (n, e)) =
      inl (rw e n, inl (rw e (ReportOf-directed a.name (a.analyze c clock) g r n)))
  PrimaryOf-Chosen (a ∷ rest) c clock first (g ∷ gs) s h (r, rs) (inr (k, p)) =
      Chosen-later a rest c clock s (ReportOf-Quiet a.name (a.analyze c clock) g r k)
        (PrimaryOf-Chosen rest c clock first gs s h rs p)

  select_primary-Chosen :
      (a : Strategy F) (rest : List (Strategy F)) (c : MarketContext F) (clock : Datetime)
      (signals : List (StrategySignal F))
      → Reports (a ∷ rest) c clock signals
      → Yields (Chosen (a ∷ rest) c clock) (select_primary signals)
  unfolding Reports select_primary Chosen Leads
  select_primary-Chosen a rest c clock [] r = absurd r
  select_primary-Chosen a rest c clock (g ∷ gs) (r, rs) = elim (direction_eq-cases g.direction) [
    | inl (e, h) ↦ rw e (
        Chosen-later a rest c clock _ (ReportOf-Quiet a.name (a.analyze c clock) g r h)
          (PrimaryOf-Chosen rest c clock g gs _ h rs (first_directional-PrimaryOf g gs)))
    | inr (e, n) ↦ rw e (inl (n, inl (ReportOf-directed a.name (a.analyze c clock) g r n)))
  ]

  -- For strategies with names that are not blank, the primary signal of a market context is
  -- always found. One with a direction was returned by a strategy that did not raise, and each
  -- strategy before it raised or returned FLAT; a FLAT one means that all strategies raised or
  -- returned FLAT.
  pub analyze_all-Chosen :
      HasLiterals fl
      → (a : Strategy F) (rest : List (Strategy F)) (c : MarketContext F) (clock : Datetime)
      → All (λ s. is_blank s.name ≡ false) (a ∷ rest)
      → Yields (Chosen (a ∷ rest) c clock) (analyze_all (a ∷ rest) c clock >>= select_primary)
  analyze_all-Chosen l a rest c clock h =
      Yields-bind (Reports (a ∷ rest) c clock) (Chosen (a ∷ rest) c clock)
        (analyze_all (a ∷ rest) c clock) select_primary (analyze_all-Reports l (a ∷ rest) c clock h)
        (λ gs r. select_primary-Chosen a rest c clock gs r)
