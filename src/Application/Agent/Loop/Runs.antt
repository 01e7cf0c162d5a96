-- ===== src/Application/Agent/Loop/Runs.antt =====
-- mt5_agent/application/agent.py: the cycles of `run` as a relation, and why the loop ended.
use llm_mt5_agent.Prelude.{
  ltb, Bool-cases, length, all, length-append, ℕ, zero, suc, ◌+◌, ◌≤◌, ◌<◌, String, ◌≡◌, refl, sym,
  ap, subst, ◌∙◌, ◌⊎◌, inl, inr, Bool, true, false, Option, none, some, List, [], ◌∷◌, ◌++◌, arith,
}
use llm_mt5_agent.Python.Errors.{Exception, Result, ok, raise}
use llm_mt5_agent.Python.Float.{Float}
use mathlib.Core.List.{append-nil, append_assoc}
use llm_mt5_agent.Domain.Market.{Timeframe}
use llm_mt5_agent.Domain.Cycle.{AgentCycle}
use llm_mt5_agent.Application.Agent.State.{TradingAgent, AgentState}
use llm_mt5_agent.Application.Agent.Cycle.{halts, run_cycle}
use llm_mt5_agent.Application.Agent.Loop.{Turn, reached, symbol_at, after_cycle, stops, loop}
use llm_mt5_agent.Execution.Live.Orders.{Result-cases}

module _ {F W : Type 0} ⦃fl : Float F⦄ (repr : String → String) (a : TradingAgent F W)
    (symbols : List String) (timeframe : Timeframe) (max_cycles : Option ℕ) (turns : ℕ → Turn) where
  -- The cycle that turn `index` runs for a symbol.
  abbrev pub cycle_at : AgentState F W → ℕ → String → AgentCycle × AgentState F W
  cycle_at s index symbol = run_cycle repr a s symbol timeframe (turns index).moment

  -- Cycles one after another, each at a turn that is not stopped, for the symbol whose turn it is.
  pub data Runs : AgentState F W → ℕ → AgentState F W → List AgentCycle → Type 0 where
    idle : {s : AgentState F W} {index : ℕ} → Runs s index s []
    cycle :
        {s t : AgentState F W} {index : ℕ} {rest : List AgentCycle} (symbol : String)
        → symbol_at symbols index ≡ ok symbol
        → (turns index).stop_requested ≡ false
        → Runs (after_cycle (cycle_at s index symbol)) (index + 1) t rest
        → Runs s index t ((cycle_at s index symbol).0 ∷ rest)

  -- Why the loop is over before a turn, or at the end of the cycle before it.
  abbrev pub Over : AgentState F W → ℕ → Result (List AgentCycle) → Type 0
  Over t last (ok cycles) =
      ((turns last).stop_requested ≡ true)
      ⊎ (reached max_cycles (length cycles) ≡ true)
      ⊎ (halts t.watchdog (turns last).moment.clock ≡ true)
  Over t last (raise e) = symbol_at symbols last ≡ raise e

  -- The cycles that are answered are those done before and those of the run.
  abbrev pub Lists : List AgentCycle → List AgentCycle → Result (List AgentCycle) → Type 0
  Lists done cycles (ok all) = all ≡ done ++ cycles
  Lists done cycles (raise e) = Unit

  -- What the loop leaves from turn `index` on, after the cycles `done`, at turn `last` or before.
  pub record Ended (last : ℕ) (s : AgentState F W) (index : ℕ) (done : List AgentCycle)
      (answer : Result (List AgentCycle)) (t : AgentState F W) : Type 0 where
    pub cycles : List AgentCycle
    pub run : Runs s index t cycles
    pub is_over : Over t (index + length cycles) answer
    pub lists : Lists done cycles answer
    pub within : index + length cycles ≤ last

  -- The loop is over, and did not run out of its bound.
  unfoldable pub Ends :
      ℕ
      → AgentState F W
      → ℕ
      → List AgentCycle
      → Option (Result (List AgentCycle) × AgentState F W)
      → Type 0
  Ends last s index done none = ⊥
  Ends last s index done (some (answer, t)) = Ended last s index done answer t

  stopped-Over :
      (s : AgentState F W) (index : ℕ) (done : List AgentCycle)
      → stops repr a symbols timeframe max_cycles turns s index done ≡ true
      → Over s index (ok done)
  unfolding stops
  stopped-Over s index done h = ground arith

  running :
      (s : AgentState F W) (index : ℕ) (done : List AgentCycle)
      → stops repr a symbols timeframe max_cycles turns s index done ≡ false
      → (turns index).stop_requested ≡ false
  unfolding stops
  running s index done h = ground arith

  Lists-shift :
      (done : List AgentCycle) (c : AgentCycle) (cycles : List AgentCycle)
      (answer : Result (List AgentCycle))
      → Lists (done ++ (c ∷ [])) cycles answer
      → Lists done (c ∷ cycles) answer
  Lists-shift done c cycles (ok all) h = h ∙ append_assoc done (c ∷ []) cycles
  Lists-shift done c cycles (raise e) h = tt

  here-Ended :
      (last : ℕ) (s : AgentState F W) (index : ℕ) (done : List AgentCycle)
      (answer : Result (List AgentCycle))
      → index ≤ last
      → Over s index answer
      → Lists done [] answer
      → Ended last s index done answer s
  here-Ended last s index done answer le h l = record {
    cycles = [];
    run = idle;
    is_over = subst (λ k. Over s k answer) (omega arith) h;
    lists = l;
    within = omega arith;
  }

  later-Ends :
      (last : ℕ) (s : AgentState F W) (index : ℕ) (done : List AgentCycle) (symbol : String)
      → symbol_at symbols index ≡ ok symbol
      → (turns index).stop_requested ≡ false
      → (o : Option (Result (List AgentCycle) × AgentState F W))
      → Ends last
          (after_cycle (cycle_at s index symbol))
          (index + 1)
          (done ++ ((cycle_at s index symbol).0 ∷ []))
          o
      → Ends last s index done o
  unfolding Ends
  later-Ends last s index done symbol e n none h = h
  later-Ends last s index done symbol e n (some (answer, t)) h = record {
    cycles = (cycle_at s index symbol).0 ∷ h.cycles;
    run = cycle symbol e n h.run;
    is_over = subst (λ k. Over t k answer) (omega arith) h.is_over;
    lists = Lists-shift done (cycle_at s index symbol).0 h.cycles answer h.lists;
    within = omega (arith, h.within);
  }

  abbrev pub loop_from :
      ℕ → AgentState F W → ℕ → List AgentCycle → Option (Result (List AgentCycle) × AgentState F W)
  loop_from = loop repr a symbols timeframe max_cycles turns

  abbrev pub stops_at : AgentState F W → ℕ → List AgentCycle → Bool
  stops_at = stops repr a symbols timeframe max_cycles turns

  -- One turn of the loop, branch by branch.
  pub loop-stopped :
      (fuel : ℕ) (s : AgentState F W) (index : ℕ) (done : List AgentCycle)
      → stops_at s index done ≡ true
      → loop_from (suc fuel) s index done ≡ some (ok done, s)
  unfolding loop
  loop-stopped fuel s index done h = rw (h, loop) refl

  pub loop-spent :
      (s : AgentState F W) (index : ℕ) (done : List AgentCycle) → loop_from 0 s index done ≡ none
  unfolding loop
  loop-spent s index done = refl

  pub loop-failed :
      (fuel : ℕ) (s : AgentState F W) (index : ℕ) (done : List AgentCycle) (e : Exception)
      → stops_at s index done ≡ false
      → symbol_at symbols index ≡ raise e
      → loop_from (suc fuel) s index done ≡ some (raise e, s)
  unfolding loop
  loop-failed fuel s index done e h k = rw (h, k, loop) refl

  abbrev pub with_cycle : AgentState F W → ℕ → List AgentCycle → String → List AgentCycle
  with_cycle s index done symbol = done ++ ((cycle_at s index symbol).0 ∷ [])

  pub loop-reached :
      (fuel : ℕ) (s : AgentState F W) (index : ℕ) (done : List AgentCycle) (symbol : String)
      → stops_at s index done ≡ false
      → symbol_at symbols index ≡ ok symbol
      → reached max_cycles (length (with_cycle s index done symbol)) ≡ true
      → loop_from (suc fuel) s index done
        ≡ some (ok (with_cycle s index done symbol), after_cycle (cycle_at s index symbol))
  unfolding loop
  loop-reached fuel s index done symbol h k r = rw (h, k, r, loop) refl

  pub loop-next :
      (fuel : ℕ) (s : AgentState F W) (index : ℕ) (done : List AgentCycle) (symbol : String)
      → stops_at s index done ≡ false
      → symbol_at symbols index ≡ ok symbol
      → reached max_cycles (length (with_cycle s index done symbol)) ≡ false
      → loop_from (suc fuel) s index done
        ≡ loop_from fuel
            (after_cycle (cycle_at s index symbol))
            (index + 1)
            (with_cycle s index done symbol)
  unfolding loop
  loop-next fuel s index done symbol h k r = rw (h, k, r, loop) refl

  length-with_cycle :
      (s : AgentState F W) (index : ℕ) (done : List AgentCycle) (symbol : String)
      → length (with_cycle s index done symbol) ≡ length done + 1
  length-with_cycle s index done symbol = length-append done ((cycle_at s index symbol).0 ∷ [])

  -- A loop that is stopped at some turn at the latest is over by then.
  pub loop-Ends :
      (last : ℕ)
      → ((s : AgentState F W) (done : List AgentCycle)
          → length done ≡ last
          → stops_at s last done ≡ true)
      → (fuel : ℕ) (s : AgentState F W) (index : ℕ) (done : List AgentCycle) → length done ≡ index
      → index ≤ last
      → last < index + fuel
      → Ends last s index done (loop_from fuel s index done)
  unfolding Ends
  loop-Ends last halt zero s index done e le lt = absurd (omega arith)
  loop-Ends last halt (suc fuel) s index done e le lt = elim (Bool-cases (stops_at s index done)) [
    | inl h ↦ rw (loop-stopped fuel s index done h) (
        here-Ended last s index done (ok done) le (stopped-Over s index done h)
          (sym (append-nil done)))
    | inr h ↦ elim (Result-cases (symbol_at symbols index)) [
      | inr (e', k) ↦
          rw (loop-failed fuel s index done e' h k)
            (here-Ended last s index done (raise e') le k tt)
      | inl (symbol, k) ↦
          let x = cycle_at s index symbol in
          let all = with_cycle s index done symbol in
          let n = running s index done h in
          let before : index + 1 ≤ last = strict index done s e le h in
          elim (Bool-cases (reached max_cycles (length all))) [
            | inl r ↦ rw (loop-reached fuel s index done symbol h k r) (
                later-Ends last s index done symbol k n (some (ok all, after_cycle x)) (
                  here-Ended last (after_cycle x) (index + 1) all (ok all) before (inr (inl r))
                    (sym (append-nil all))))
            | inr r ↦ rw (loop-next fuel s index done symbol h k r) (
                later-Ends last s index done symbol k n
                  (loop_from fuel (after_cycle x) (index + 1) all)
                  (loop-Ends last halt fuel (after_cycle x) (index + 1) all
                    (length-with_cycle s index done symbol ∙ ap (λ k. k + 1) e) before
                    (omega arith)))
          ]
    ]
  ]
    where
      strict :
          (i : ℕ) (done' : List AgentCycle) (s' : AgentState F W)
          → length done' ≡ i
          → i ≤ last
          → stops_at s' i done' ≡ false
          → i + 1 ≤ last
      strict i done' s' e le h = elim (Bool-cases (ltb i last)) [
        | inl l ↦ ground arith
        | inr l ↦
            let same : i ≡ last = ground arith in absurd (ground (arith, halt s' done' (e ∙ same)))
      ]
