-- ===== src/Application/Agent/Loop/Ending.antt =====
-- mt5_agent/application/agent.py: when `run` ends, and what its cycles do in all.
use llm_mt5_agent.Prelude.{
  if-cases, length, length-append, ℕ, ◌+◌, ◌*◌, ◌/◌, ◌%◌, zero, suc, subst, ◌++◌, ◌≤◌, String, ◌≡◌,
  refl, sym, ap, inl, inr, true, Option, some, List, [], ◌∷◌, arith,
}
use llm_mt5_agent.Python.Errors.{ok, ok-inj}
use llm_mt5_agent.Application.Agent.Parts.{item}
use native.Mathlib.Nat.{mod-add-div'}
use llm_mt5_agent.Python.Float.{Float}
use llm_mt5_agent.Domain.Market.{Timeframe}
use llm_mt5_agent.Domain.Cycle.{AgentCycle}
use llm_mt5_agent.Application.Agent.State.{TradingAgent, AgentState, Moment}
use llm_mt5_agent.Application.Agent.Cycle.{
  halts, refused_cycle, cycle_of, finish_watchdog, run_cycle,
}
use llm_mt5_agent.Application.Agent.Loop.{Turn, reached, symbol_at, after_cycle, stops, run_loop}
use llm_mt5_agent.Application.Agent.Loop.Runs.{Runs, idle, cycle, Ends, stops_at, loop-Ends}
use llm_mt5_agent.Execution.Session.{Payload}
use llm_mt5_agent.Application.Agent.Orders.{Acts, run_cycle-Acts}

-- The turn of a symbol: the list was gone through some times, and then to the symbol.
pub record HasTurn (symbols : List String) (index : ℕ) (symbol : String) : Type 0 where
  pub rounds : ℕ
  pub before : List String
  pub after : List String
  pub split : symbols ≡ before ++ (symbol ∷ after)
  pub counted : index ≡ rounds * length symbols + length before

item-split :
    (xs : List String) (i : ℕ) (x : String)
    → item xs i ≡ ok x
    → (before : List String) × (after : List String) × (xs ≡ before ++ (x ∷ after))
      × (length before ≡ i)
unfolding item
item-split [] i x h = cc
item-split (y ∷ xs) zero x h = ([], xs, ap (λ z. z ∷ xs) (ok-inj h), refl)
item-split (y ∷ xs) (suc i) x h =
    let (before, after, e, n) = item-split xs i x h in
    (y ∷ before, after, ap (λ z. y ∷ z) e, ap suc n)

symbol_at-HasTurn :
    (symbols : List String) (index : ℕ) (symbol : String)
    → symbol_at symbols index ≡ ok symbol
    → HasTurn symbols index symbol
unfolding symbol_at
symbol_at-HasTurn [] index symbol h = cc
symbol_at-HasTurn (x ∷ xs) index symbol h =
    let (before, after, e, n) = item-split (x ∷ xs) (index % length (x ∷ xs)) symbol h in
    record {
      rounds = index / length (x ∷ xs);
      before = before;
      after = after;
      split = e;
      counted = omega (arith, n, mod-add-div' index (length (x ∷ xs)));
    }

module _ {F W : Type 0} ⦃fl : Float F⦄ (repr : String → String) (a : TradingAgent F W)
    (symbols : List String) (timeframe : Timeframe) (turns : ℕ → Turn) where
  full :
      (n : ℕ) (s : AgentState F W) (done : List AgentCycle)
      → length done ≡ n
      → stops_at repr a symbols timeframe (some n) turns s n done ≡ true
  unfolding stops reached
  full n s done e = ground arith

  requested :
      (max_cycles : Option ℕ) (k : ℕ) (s : AgentState F W) (done : List AgentCycle)
      → (turns k).stop_requested ≡ true
      → stops_at repr a symbols timeframe max_cycles turns s k done ≡ true
  unfolding stops
  requested max_cycles k s done h = rw (h, stops) refl

  -- With `max_cycles` n, the loop is over at turn n at the latest, whatever the collaborators do: its
  -- answer lists the cycles it ran, at most n, each at a turn where no stop was requested and for the
  -- symbol whose turn it was; and it ended since a stop was requested, n cycles were done or the
  -- watchdog halts, or raised for an empty list of symbols.
  pub run_loop-max :
      (n : ℕ) (s : AgentState F W)
      → Ends repr a symbols timeframe
          (some n)
          turns
          n
          s
          0
          []
          (run_loop repr a symbols timeframe (some n) turns (n + 1) s)
  unfolding run_loop
  run_loop-max n s =
      loop-Ends repr a symbols timeframe (some n) turns n (full n) (n + 1) s 0 [] refl (omega arith)
        (omega arith)

  -- A stop that is requested by turn k ends the loop there at the latest, with or without a limit on
  -- the cycles: the cycles that it ran are at most k.
  pub run_loop-stop :
      (max_cycles : Option ℕ) (k : ℕ) (s : AgentState F W)
      → (turns k).stop_requested ≡ true
      → Ends repr a symbols timeframe max_cycles turns k s 0 []
          (run_loop repr a symbols timeframe max_cycles turns (k + 1) s)
  unfolding run_loop
  run_loop-stop max_cycles k s h =
      loop-Ends repr a symbols timeframe max_cycles turns k
        (λ t done _. requested max_cycles k t done h) (k + 1) s 0 [] refl (omega arith)
        (omega arith)

  -- The cycles are for the symbols in turn, from some index on.
  abbrev pub InTurn : ℕ → List AgentCycle → Type 0
  InTurn index [] = Unit
  InTurn index (c ∷ rest) = HasTurn symbols index c.symbol × InTurn (index + 1) rest

  cycle_symbol :
      (s : AgentState F W) (symbol : String) (m : Moment)
      → (run_cycle repr a s symbol timeframe m).0.symbol ≡ symbol
  unfolding run_cycle refused_cycle finish_watchdog cycle_of
  cycle_symbol s symbol m =
      if-cases (halts s.watchdog m.clock) (λ (x : AgentCycle × AgentState F W). x.0.symbol ≡ symbol)
        (λ _. refl) (λ _. refl)

  Acts-length :
      (s : AgentState F W) (symbol : String) (m : Moment) (sent : List (Payload F))
      → Acts repr a s symbol timeframe m sent
      → length sent ≤ length s.session.sent + 1
  Acts-length s symbol m sent (inl e) = rw e (omega arith)
  Acts-length s symbol m sent (inr order) =
      rw (order.is_last, order.placed.order_sent, order.unsent_before)
        (omega (arith, length-append s.session.sent (_ ∷ [])))

  -- The cycle of each turn of the loop is for the symbol whose turn it is: the one with as many symbols
  -- before it in the list as the index of the turn exceeds a multiple of the number of symbols. So
  -- the cycles start over after the last symbol; and they send at most one order each.
  pub Runs-InTurn :
      {max_cycles : Option ℕ} {s t : AgentState F W} {index : ℕ} {cycles : List AgentCycle}
      → Runs repr a symbols timeframe max_cycles turns s index t cycles
      → InTurn index cycles × (length t.session.sent ≤ length s.session.sent + length cycles)
  unfolding after_cycle
  Runs-InTurn idle = (tt, omega arith)
  Runs-InTurn {max_cycles} {s} {t} {index} (cycle symbol e n rest) =
      let (turns', orders) = Runs-InTurn rest in
      let m = (turns index).moment in
      let one = Acts-length s symbol m _ (run_cycle-Acts repr a s symbol timeframe m) in
      (
        (
          subst (HasTurn symbols index) (sym (cycle_symbol s symbol m))
              (symbol_at-HasTurn symbols index symbol e),
          turns',
        ),
        omega (arith, orders, one),
      )
