-- ===== src/Strategies/Service/Triage.antt =====
-- mt5_agent/application/strategy_service.py: `decide`, which triages the signals of the strategies.
use llm_mt5_agent.Prelude.{All, is_blank, ◌≡◌, refl, ◌≢◌, false, List, [], ◌∷◌}
use llm_mt5_agent.Python.Bind.{Yields, Yields-bind}
use llm_mt5_agent.Python.Errors.{Result, ok, raise}
use llm_mt5_agent.Python.Float.{Float, Datetime, HasLiterals}
use llm_mt5_agent.Domain.Strategy.{
  Direction, long, short, flat, Setup, MarketContext, StrategySignal, DecisionAction,
  StrategyDecision, new_strategy_decision,
}
use llm_mt5_agent.Strategies.Strategy.{Strategy}
use llm_mt5_agent.Strategies.Service.{triage, triage_all, decide}
use llm_mt5_agent.Strategies.Service.Reports.{Reports, analyze_all-Reports}

module _ {F : Type 0} where
  -- The action that a direction and its setups ask for.
  unfoldable pub ActionFor : DecisionAction → Direction → List (Setup F) → Type 0
  ActionFor DecisionAction.candidate direction setups = direction ≢ flat
  ActionFor DecisionAction.observe direction setups = (direction ≡ flat) × (setups ≢ [])
  ActionFor DecisionAction.skip direction setups = (direction ≡ flat) × (setups ≡ [])

  pub record Triaged (s : StrategySignal F) (d : StrategyDecision F) : Type 0 where
    pub of_signal : d.signal ≡ s
    pub asked : ActionFor d.action s.direction s.setups
    pub reasoned : d.reasons ≢ []

  -- One decision for each signal, in their order.
  unfoldable pub Triages : List (StrategySignal F) → List (StrategyDecision F) → Type 0
  Triages [] [] = Unit
  Triages [] (_ ∷ _) = ⊥
  Triages (_ ∷ _) [] = ⊥
  Triages (s ∷ rest) (d ∷ ds) = Triaged s d × Triages rest ds

module _ {F : Type 0} ⦃fl : Float F⦄ where
  triage-Triaged : (s : StrategySignal F) → Yields (Triaged s) (triage s)
  unfolding triage new_strategy_decision ActionFor
  triage-Triaged s = by_direction s.direction s.setups refl refl
    where
      by_direction :
          (direction : Direction) (setups : List (Setup F))
          → s.direction ≡ direction
          → s.setups ≡ setups
          → Yields (Triaged s) (triage s)
      by_direction long setups e f =
          rw e (record { of_signal = refl; asked = λ k. cc; reasoned = λ k. cc })
      by_direction short setups e f =
          rw e (record { of_signal = refl; asked = λ k. cc; reasoned = λ k. cc })
      by_direction flat [] e f =
          rw (e, f) (record { of_signal = refl; asked = (refl, refl); reasoned = λ k. cc })
      by_direction flat (x ∷ xs) e f =
          rw (e, f) (record { of_signal = refl; asked = (refl, λ k. cc); reasoned = λ k. cc })

  triage_all-Triages :
      (signals : List (StrategySignal F)) → Yields (Triages signals) (triage_all signals)
  unfolding triage_all Triages
  triage_all-Triages [] = tt
  triage_all-Triages (s ∷ rest) =
      Yields-bind (Triaged s) (Triages (s ∷ rest)) _ _ (triage-Triaged s) (λ d p.
        Yields-bind (Triages rest) (Triages (s ∷ rest)) _ _ (triage_all-Triages rest)
          (λ ds q. (p, q)))

  -- The decisions on what the strategies report.
  abbrev pub Decides :
      List (Strategy F) → MarketContext F → Datetime → List (StrategyDecision F) → Type 0
  Decides strategies c clock ds =
      (signals : List (StrategySignal F)) × Reports strategies c clock signals × Triages signals ds

  -- For strategies with names that are not blank, `decide` never raises: it answers one decision for
  -- each strategy, in their order, on what that strategy reports (FLAT where it raised). The action is
  -- CANDIDATE exactly for a signal with a direction, OBSERVE for a FLAT one with setups and SKIP for a
  -- FLAT one without, and each decision has reasons.
  pub decide-Decides :
      HasLiterals fl
      → (strategies : List (Strategy F)) (c : MarketContext F) (clock : Datetime)
      → All (λ s. is_blank s.name ≡ false) strategies
      → Yields (Decides strategies c clock) (decide strategies c clock)
  unfolding decide
  decide-Decides l strategies c clock h =
      Yields-bind (Reports strategies c clock) (Decides strategies c clock) _ _
        (analyze_all-Reports l strategies c clock h)
        (λ signals p. decided signals p (triage_all signals) (triage_all-Triages signals))
    where
      decided :
          (signals : List (StrategySignal F))
          → Reports strategies c clock signals
          → (r : Result (List (StrategyDecision F))) → Yields (Triages signals) r
          → Yields (Decides strategies c clock) r
      decided signals p (ok ds) q = (signals, p, q)
      decided signals p (raise _) q = elim q [ ]
