-- ===== src/Application/Agent/Loop/Failsafe.antt =====
-- mt5_agent/application/agent.py with watchdog.py: cycles that fail in a row halt the agent.
use llm_mt5_agent.Prelude.{
  Bool-cases, is_none, if◌then◌else◌, not, length, ℕ, ◌+◌, ◌≤◌, String, ◌≡◌, refl, sym, ap, ◌∙◌,
  ◌⊎◌, inl, inr, Bool, true, false, Option, none, some, List, [], ◌∷◌, arith,
}
use llm_mt5_agent.Python.Errors.{Result}
use llm_mt5_agent.Python.Float.{Float, Datetime}
use llm_mt5_agent.Domain.Market.{Timeframe}
use llm_mt5_agent.Domain.Cycle.{AgentCycle, cycle_ok}
use llm_mt5_agent.Application.Watchdog.{
  Watchdog, Counters, count_of, any_over, is_stale, status, should_halt, note_success, note_failure,
}
use llm_mt5_agent.Application.Watchdog.Streaks.{count-set, graded}
use llm_mt5_agent.Application.Agent.State.{TradingAgent, AgentState, Frame, Moment, new_frame}
use llm_mt5_agent.Application.Agent.Cycle.{
  noted_cycle, halts, refused_cycle, finish_watchdog, run_cycle,
}
use llm_mt5_agent.Application.Agent.Watched.{limit_of, strikes_of, Watched, stages-Watched}
use llm_mt5_agent.Application.Agent.Loop.{Turn, after_cycle}
use llm_mt5_agent.Application.Agent.Loop.Runs.{Runs, idle, cycle}

any_over-count :
    (limit : ℕ) (counters : Counters) (kind : String)
    → 1 ≤ limit
    → limit ≤ count_of counters kind
    → any_over limit counters ≡ true
unfolding any_over count_of
any_over-count limit [] kind l h = absurd (omega (arith, l, h))
any_over-count limit ((k, n) ∷ rest) kind l h = ground (arith, any_over-count limit rest kind l)

noted-limit :
    {F : Type 0} (o : Option (Watchdog F)) (good : Bool) (error : String) (clock : Datetime)
    → limit_of (noted_cycle o good error clock) ≡ limit_of o
unfolding noted_cycle note_failure note_success
noted-limit none good error clock = refl
noted-limit (some w) true error clock = refl
noted-limit (some w) false error clock = refl

noted-strikes :
    {F : Type 0} (o : Option (Watchdog F)) (error : String) (clock : Datetime)
    → 1 ≤ limit_of o
    → strikes_of (noted_cycle o false error clock) ≡ strikes_of o + 1
unfolding noted_cycle note_failure
noted-strikes none error clock l = absurd (omega (arith, l))
noted-strikes (some w) error clock l =
    count-set w.consecutive "cycle" "cycle" (count_of w.consecutive "cycle" + 1)

module _ {F : Type 0} ⦃fl : Float F⦄ where
  graded_halt :
      (t over : Bool) (w : Watchdog F) (now : Datetime)
      → not (is_none w.tripped_at) ≡ t
      → any_over w.config.max_consecutive_failures w.consecutive ≡ over
      → should_halt w now ≡ (if t then true else over)
  unfolding should_halt status
  graded_halt true over w now h k = rw (h) refl
  graded_halt false true w now h k = rw (h, k) refl
  graded_halt false false w now h k = rw (h, k) (graded (is_stale w now))

  -- The clock tells a stale watchdog from a healthy one, but never a halted one from the others.
  halts_any_time :
      (o : Option (Watchdog F)) (now later : Datetime) → halts o now ≡ true → halts o later ≡ true
  unfolding halts
  halts_any_time none now later h = h
  halts_any_time (some w) now later h =
      graded_halt _ _ w later refl refl ∙ (sym (graded_halt _ _ w now refl refl) ∙ h)

  halts-strikes :
      (o : Option (Watchdog F)) (now : Datetime)
      → 1 ≤ limit_of o
      → limit_of o ≤ strikes_of o
      → halts o now ≡ true
  unfolding halts
  halts-strikes none now l h = absurd (omega (arith, l))
  halts-strikes (some w) now l h =
      graded_halt _ true w now refl
        (any_over-count w.config.max_consecutive_failures w.consecutive "cycle" l h)
      ∙ always (not (is_none w.tripped_at))
    where
      always : (b : Bool) → (if b then true else true) ≡ true
      always true = refl
      always false = refl

-- Cycles that are not `ok`, and cycles that a halted watchdog refused.
abbrev pub Failing : List AgentCycle → Type 0
Failing [] = Unit
Failing (c ∷ rest) = (cycle_ok c ≡ false) × Failing rest

abbrev pub Refused : List AgentCycle → Type 0
Refused [] = Unit
Refused (c ∷ rest) = (c.error ≡ "watchdog halt") × Refused rest

module _ {F W : Type 0} ⦃fl : Float F⦄ (repr : String → String) (a : TradingAgent F W) where
  finish-strikes :
      (symbol : String) (timeframe : Timeframe) (m : Moment) (o : Option (Watchdog F))
      (x : Result (Unit {0}) × Frame F W)
      → Watched o x.1
      → 1 ≤ limit_of o
      → cycle_ok (finish_watchdog symbol timeframe m x).0 ≡ false
      → (limit_of (finish_watchdog symbol timeframe m x).1.watchdog ≡ limit_of o)
        × (strikes_of (finish_watchdog symbol timeframe m x).1.watchdog ≡ strikes_of o + 1)
  unfolding finish_watchdog
  finish-strikes symbol timeframe m o x p l h = (
    noted-limit x.1.agent.watchdog _ _ m.clock ∙ p.limit,
    rw h (noted-strikes x.1.agent.watchdog _ m.clock (rw p.limit l) ∙ ap (λ n. n + 1) p.strikes),
  )

  refused_lem :
      (s : AgentState F W) (symbol : String) (timeframe : Timeframe) (m : Moment)
      → halts s.watchdog m.clock ≡ true
      → run_cycle repr a s symbol timeframe m ≡ (refused_cycle symbol timeframe m, s)
  unfolding run_cycle
  refused_lem s symbol timeframe m h = rw h refl

  -- A cycle that fails counts once more on the watchdog.
  failed_lem :
      (s : AgentState F W) (symbol : String) (timeframe : Timeframe) (m : Moment)
      → halts s.watchdog m.clock ≡ false
      → 1 ≤ limit_of s.watchdog
      → cycle_ok (run_cycle repr a s symbol timeframe m).0 ≡ false
      → (limit_of (run_cycle repr a s symbol timeframe m).1.watchdog ≡ limit_of s.watchdog)
        × (strikes_of (run_cycle repr a s symbol timeframe m).1.watchdog
            ≡ strikes_of s.watchdog + 1)
  unfolding run_cycle new_frame
  failed_lem s symbol timeframe m n l h = rw n (
      finish-strikes symbol timeframe m s.watchdog _
        ((stages-Watched repr a m s.watchdog symbol timeframe).leads (new_frame s)
          (record { limit = refl; strikes = refl }))
        l (rw n at h))

-- One state has what another has, but for the number of cycles.
pub record Unchanged {F W : Type 0} (s t : AgentState F W) : Type 0 where
  pub supervisor : t.supervisor ≡ s.supervisor
  pub ledger : t.ledger ≡ s.ledger
  pub session : t.session ≡ s.session
  pub watchdog : t.watchdog ≡ s.watchdog

module _ {F W : Type 0} ⦃fl : Float F⦄ (repr : String → String) (a : TradingAgent F W)
    (symbols : List String) (timeframe : Timeframe) (max_cycles : Option ℕ) (turns : ℕ → Turn) where
  abbrev pub Cycles : AgentState F W → ℕ → AgentState F W → List AgentCycle → Type 0
  Cycles = Runs repr a symbols timeframe max_cycles turns

  -- The cycles after a halt.
  halted_lem :
      {s t : AgentState F W} {index : ℕ} {cycles : List AgentCycle}
      → Cycles s index t cycles
      → (now : Datetime) → halts s.watchdog now ≡ true
      → Refused cycles × Unchanged s t
  unfolding after_cycle refused_cycle
  halted_lem idle now h =
      (tt, record { supervisor = refl; ledger = refl; session = refl; watchdog = refl })
  halted_lem {s} {t} {index} (cycle symbol e n rest) now h =
      let m = (turns index).moment in
      let same =
        refused_lem repr a s symbol timeframe m (halts_any_time s.watchdog now m.clock h) in
      let (refused, u) = halted_lem rest now (rw (ap (λ x. x.1.watchdog) same) h) in
      (
        (ap (λ x. x.0.error) same, refused),
        record {
          supervisor = u.supervisor ∙ ap (λ x. x.1.supervisor) same;
          ledger = u.ledger ∙ ap (λ x. x.1.ledger) same;
          session = u.session ∙ ap (λ x. x.1.session) same;
          watchdog = u.watchdog ∙ ap (λ x. x.1.watchdog) same;
        },
      )

  -- After failing cycles the agent is halted, or each of them was counted.
  counted_lem :
      {s t : AgentState F W} {index : ℕ} {cycles : List AgentCycle}
      → Cycles s index t cycles
      → 1 ≤ limit_of s.watchdog
      → Failing cycles
      → ((now : Datetime) → halts t.watchdog now ≡ true)
        ⊎ ((limit_of t.watchdog ≡ limit_of s.watchdog)
            × (strikes_of t.watchdog ≡ strikes_of s.watchdog + length cycles))
  unfolding after_cycle
  counted_lem idle l h = inr (refl, omega arith)
  counted_lem {s} {t} {index} (cycle symbol e n rest) l (h, hs) =
      let m = (turns index).moment in
      elim (Bool-cases (halts s.watchdog m.clock)) [
        | inl k ↦ inl (λ now.
            let (_, u) = halted_lem (cycle symbol e n rest) m.clock k in
            rw u.watchdog (halts_any_time s.watchdog m.clock now k))
        | inr k ↦
            let (same, more) = failed_lem repr a s symbol timeframe m k l h in
            elim (counted_lem rest (rw same l) hs) [
              | inl halted ↦ inl halted
              | inr (same', more') ↦ inr (same' ∙ same, omega (arith, more, more'))
            ]
      ]

  -- Once as many cycles in a row as the watchdog's limit were not `ok`, every later cycle of the loop
  -- is refused with the error "watchdog halt" and changes nothing but the number of cycles: the
  -- terminal, the outside world, the ledgers and the watchdog stay as they are. The limit is at least
  -- one, which says that there is a watchdog.
  pub Runs-Refused :
      {s t u : AgentState F W} {index next : ℕ} {failing later : List AgentCycle}
      → Cycles s index t failing
      → Cycles t next u later
      → 1 ≤ limit_of s.watchdog
      → Failing failing
      → limit_of s.watchdog ≤ length failing
      → Refused later × Unchanged t u
  Runs-Refused {t = t} run after l h enough = halted_lem after 0 (elim (counted_lem run l h) [
    | inl halted ↦ halted 0
    | inr (same, more) ↦ halts-strikes t.watchdog 0 (rw same l) (omega (arith, same, more, enough))
  ])
