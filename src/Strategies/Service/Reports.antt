-- ===== src/Strategies/Service/Reports.antt =====
-- mt5_agent/application/strategy_service.py and select_primary: what a list of strategies reports.
use llm_mt5_agent.Prelude.{
  All, is_blank, String, ◌≡◌, refl, ◌≢◌, ◌⊎◌, inl, inr, true, false, List, [], ◌∷◌, arith,
}
use llm_mt5_agent.Python.Bind.{Yields, Yields-bind}
use llm_mt5_agent.Python.Errors.{Exception, Result, ok, raise}
use llm_mt5_agent.Python.Float.{Float, lit, Datetime, HasLiterals}
use llm_mt5_agent.Domain.Strategy.{
  Direction, long, short, flat, direction_eq, MarketContext, StrategySignal, new_strategy_signal,
  first_directional,
}
use llm_mt5_agent.Strategies.Strategy.{Strategy}
use llm_mt5_agent.Strategies.Service.{error_signal, signal_or_error, analyze_all}

module _ {F : Type 0} ⦃fl : Float F⦄ where
  -- The signal is what the strategy returned, or, where it raised, FLAT in its name.
  unfoldable pub ReportOf : String → Result (StrategySignal F) → StrategySignal F → Type 0
  ReportOf name (ok own) s = s ≡ own
  ReportOf name (raise e) s =
      (s.strategy ≡ name) × (s.direction ≡ flat) × (s.confidence ≡ lit 0) × (s.setups ≡ [])

  -- One signal for each strategy, in their order.
  unfoldable pub Reports :
      List (Strategy F) → MarketContext F → Datetime → List (StrategySignal F) → Type 0
  Reports [] c clock [] = Unit
  Reports [] c clock (_ ∷ _) = ⊥
  Reports (_ ∷ _) c clock [] = ⊥
  Reports (s ∷ rest) c clock (g ∷ gs) =
      ReportOf s.name (s.analyze c clock) g × Reports rest c clock gs

  error_signal-ReportOf :
      HasLiterals fl
      → (s : Strategy F) (c : MarketContext F) (e : Exception) (clock : Datetime)
      → is_blank s.name ≡ false
      → Yields (ReportOf s.name (raise e)) (error_signal s c e clock)
  unfolding error_signal ReportOf new_strategy_signal
  error_signal-ReportOf l s c e clock h =
      rw (h, l.le_lit 0 0 (omega arith) (omega arith), l.le_lit 0 1 (omega arith) (omega arith))
        (refl, refl, refl, refl)

  signal_or_error-ReportOf :
      HasLiterals fl
      → (s : Strategy F) (c : MarketContext F) (clock : Datetime) (r : Result (StrategySignal F))
      → is_blank s.name ≡ false
      → Yields (ReportOf s.name r) (signal_or_error s c clock r)
  unfolding signal_or_error ReportOf
  signal_or_error-ReportOf l s c clock (ok own) h = refl
  signal_or_error-ReportOf l s c clock (raise e) h = error_signal-ReportOf l s c e clock h

  -- Strategies with names that are not blank are all reported, in their order: what each of them
  -- returned, and FLAT without confidence or setups where it raised. Nothing is raised.
  pub analyze_all-Reports :
      HasLiterals fl
      → (strategies : List (Strategy F)) (c : MarketContext F) (clock : Datetime)
      → All (λ s. is_blank s.name ≡ false) strategies
      → Yields (Reports strategies c clock) (analyze_all strategies c clock)
  unfolding analyze_all Reports
  analyze_all-Reports l [] c clock h = tt
  analyze_all-Reports l (s ∷ rest) c clock (h, hs) =
      Yields-bind (ReportOf s.name (s.analyze c clock)) (Reports (s ∷ rest) c clock) _ _
        (signal_or_error-ReportOf l s c clock (s.analyze c clock) h)
        (λ g p.
          Yields-bind (Reports rest c clock) (Reports (s ∷ rest) c clock) _ _
            (analyze_all-Reports l rest c clock hs) (λ gs q. (p, q)))

-- The chosen signal is the first of those with a direction; without one it is the first of all.
unfoldable pub PrimaryOf :
    {F : Type 0} → StrategySignal F → List (StrategySignal F) → StrategySignal F → Type 0
PrimaryOf first [] s = s ≡ first
PrimaryOf first (g ∷ gs) s =
    ((g.direction ≢ flat) × (s ≡ g)) ⊎ ((g.direction ≡ flat) × PrimaryOf first gs s)

pub direction_eq-cases :
    (d : Direction)
    → ((direction_eq d flat ≡ true) × (d ≡ flat)) ⊎ ((direction_eq d flat ≡ false) × (d ≢ flat))
direction_eq-cases flat = inl (refl, refl)
direction_eq-cases long = inr (refl, λ e. cc)
direction_eq-cases short = inr (refl, λ e. cc)

pub first_directional-PrimaryOf :
    {F : Type 0} (first : StrategySignal F) (signals : List (StrategySignal F))
    → PrimaryOf first signals (first_directional first signals)
unfolding PrimaryOf first_directional
first_directional-PrimaryOf first [] = refl
first_directional-PrimaryOf first (s ∷ rest) = elim (direction_eq-cases s.direction) [
  | inl (e, h) ↦ rw e (inr (h, first_directional-PrimaryOf first rest))
  | inr (e, h) ↦ rw e (inl (h, refl))
]
