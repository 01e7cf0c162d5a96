-- ===== src/Application/Agent/Seen.antt =====
-- mt5_agent/application/agent.py: what a cycle has observed, what it has planned from it, and what it
-- gives to the supervisor, each described by the answers of the agent's collaborators.
use llm_mt5_agent.Prelude.{
  if-cases, filter, str_eq, ℕ, String, ◌≡◌, ◌∙◌, refl, sym, subst, true, false, ◌&&◌, ◌⊎◌, inl, inr,
  is_none, Option, none, some, [], ◌∷◌,
}
use llm_mt5_agent.Python.Step.{Step, continue, ◌>>=◌}
use llm_mt5_agent.Python.Bind.{Returns, Returns-raise_if}
use llm_mt5_agent.Python.Errors.{Result, ok, ok-inj, raise}
use llm_mt5_agent.Python.Float.{Float, ◌<?◌, lit, Datetime}
use llm_mt5_agent.Domain.Market.{Timeframe, Tick, SymbolInfo, tick_spread}
use llm_mt5_agent.Domain.Planning.{PlannerInput, new_planner_input, TradeProposal, is_actionable}
use llm_mt5_agent.Risk.Context.{RiskContext}
use llm_mt5_agent.Ai.Planner.{hold_proposal}
use llm_mt5_agent.Ai.Answer.Sound.{new_trade_proposal-Returns}
use llm_mt5_agent.Application.Agent.Parts.{
  Observation, Observer, ContextBuilder, observe, build_planner_input,
}
use llm_mt5_agent.Application.Agent.State.{TradingAgent}
use llm_mt5_agent.Application.Agent.Stages.{points_of, risk_context, with_volume}

-- What a sequence of two statements returns.
bind-Returns :
    {S A B : Type 0} (P : B → Type 0) (m : Step S A) (f : A → Step S B) (s : S)
    → ((a : A) → (m s).0 ≡ ok a → Returns P (f a (m s).1).0)
    → Returns P ((m >>= f) s).0
unfolding ◌>>=◌ continue
bind-Returns {S} {A} P m f s h = go (m s) h
  where
    go :
        (x : Result A × S)
        → ((a : A) → x.0 ≡ ok a → Returns P (f a x.1).0)
        → Returns P (continue x f).0
    go (ok a, s') k = k a refl
    go (raise e, s') k = tt

of_Returns : {A : Type 0} (P : A → Type 0) (m : Result A) (a : A) → Returns P m → m ≡ ok a → P a
of_Returns P m a h e = subst (Returns P) e h

module _ {F W : Type 0} (o : Observer F W) (symbol : String) (timeframe : Timeframe) (count : ℕ)
    (clock : Datetime) (w : W) where
  -- The answers of the four services, asked one after the other from a world.
  pub record Observed (x : Observation F) : Type 0 where
    pub snapshot : (o.get_snapshot symbol timeframe count w).0 ≡ ok x.snapshot
    pub account : (o.get_state (o.get_snapshot symbol timeframe count w).1).0 ≡ ok x.account
    pub positions :
        (o.open_positions (o.get_state (o.get_snapshot symbol timeframe count w).1).1).0
        ≡ ok x.positions
    pub orders :
        (o.pending_orders
          (o.open_positions (o.get_state (o.get_snapshot symbol timeframe count w).1).1).1).0
        ≡ ok x.orders
    pub observed_at : x.observed_at ≡ clock

  -- There is but one observation of a world.
  pub Observed-unique : (x y : Observation F) → Observed x → Observed y → x ≡ y
  Observed-unique x y h k = λ i. record {
    snapshot = ok-inj (sym h.snapshot ∙ k.snapshot) i;
    account = ok-inj (sym h.account ∙ k.account) i;
    positions = ok-inj (sym h.positions ∙ k.positions) i;
    orders = ok-inj (sym h.orders ∙ k.orders) i;
    observed_at = (h.observed_at ∙ sym k.observed_at) i;
  }

  pub observe-Observed :
      (x : Observation F) → (observe o symbol timeframe count clock w).0 ≡ ok x → Observed x
  unfolding observe
  observe-Observed x e =
      of_Returns Observed _ x
        (bind-Returns Observed (o.get_snapshot symbol timeframe count) _ w (λ s a.
          bind-Returns Observed o.get_state _ _ (λ t b.
            bind-Returns Observed o.open_positions _ _ (λ p c.
              bind-Returns Observed o.pending_orders _ _ (λ q d. record {
                snapshot = a;
                account = b;
                positions = c;
                orders = d;
                observed_at = refl;
              })))))
        e

module _ {F : Type 0} ⦃fl : Float F⦄ where
  -- The planner is asked about what was observed: its market, the account, and the positions of its
  -- symbol.
  pub record IsInput (o : Observation F) (i : PlannerInput F) : Type 0 where
    pub symbol : i.symbol ≡ o.snapshot.symbol
    pub timeframe : i.timeframe ≡ o.snapshot.timeframe
    pub snapshot : i.snapshot ≡ o.snapshot
    pub account : i.account ≡ some o.account
    pub open_positions :
        i.open_positions ≡ filter (λ p. str_eq p.symbol o.snapshot.symbol) o.positions

  new_planner_input-Returns :
      (P : PlannerInput F → Type 0) (i : PlannerInput F) → P i → Returns P (new_planner_input i)
  unfolding new_planner_input
  new_planner_input-Returns P i h = Returns-raise_if P _ _ _ (λ _.
      Returns-raise_if P _ _ _
        (λ _. Returns-raise_if P _ _ _ (λ _. Returns-raise_if P _ _ _ (λ _. h))))

  pub build_planner_input-IsInput :
      {W : Type 0} (b : ContextBuilder F W) (o : Observation F) (index : Option ℕ)
      (clock : Datetime) (w : W) (i : PlannerInput F)
      → (build_planner_input b o index clock w).0 ≡ ok i
      → IsInput o i
  unfolding build_planner_input
  build_planner_input-IsInput b o index clock w i e =
      of_Returns (IsInput o) _ i
        (bind-Returns (IsInput o) _ _ w (λ _ _. bind-Returns (IsInput o) _ _ _ (λ _ _.
          bind-Returns (IsInput o) _ _ _ (λ _ _. bind-Returns (IsInput o) _ _ _ (λ _ _.
            new_planner_input-Returns (IsInput o) _ (record {
              symbol = refl;
              timeframe = refl;
              snapshot = refl;
              account = refl;
              open_positions = refl;
            }))))))
        e

  -- What the planner answers to an input, or the HOLD of an agent without one.
  abbrev pub answer_of :
      {W : Type 0}
      → Option (PlannerInput F → Step W (TradeProposal F))
      → PlannerInput F
      → Datetime
      → W
      → Result (TradeProposal F)
  answer_of none i clock w = hold_proposal i "LLM not configured: HOLD" clock
  answer_of (some plan) i clock w = (plan i w).0

  -- A proposal to buy or sell without a volume has got the default one, any other is as it was.
  abbrev pub Completed : F → TradeProposal F → TradeProposal F → Type 0
  Completed volume p q =
      (((is_actionable p && is_none p.volume) ≡ true) × (q ≡ record p { volume = some volume }))
      ⊎ (((is_actionable p && is_none p.volume) ≡ false) × (q ≡ p))

  pub with_volume-Completed :
      (volume : F) (p q : TradeProposal F) → with_volume volume p ≡ ok q → Completed volume p q
  unfolding with_volume
  with_volume-Completed volume p q e =
      of_Returns (Completed volume p) _ q
        (if-cases (is_actionable p && is_none p.volume) (Returns (Completed volume p))
          (λ h. new_trade_proposal-Returns (Completed volume p) _ (λ _. inl (h, refl)))
          (λ h. inr (h, refl)))
        e

  -- The context of a review is that of the observation and of the clock: the account with its day's
  -- profit, the positions, the orders, the point and the spread in points where there is a tick and a point, no spread
  -- without a tick, and no decisions but those of the supervisor's own ledger.
  pub record IsContext (o : Observation F) (clock : Datetime) (x : RiskContext F) : Type 0 where
    pub account : x.account ≡ o.account
    pub positions : x.positions ≡ o.positions
    pub orders : x.orders ≡ o.orders
    pub server_time : x.server_time ≡ clock
    pub day_pnl : x.day_pnl ≡ o.account.day_realized_pnl
    pub recent_decisions : x.recent_decisions ≡ []
    pub no_spread : o.snapshot.tick ≡ none → x.spreads_points ≡ []
    pub spreads :
        (tick : Tick F) (info : SymbolInfo F)
        → o.snapshot.tick ≡ some tick
        → o.snapshot.symbol_info ≡ some info
        → (lit 0 <? info.point) ≡ true
        → x.spreads_points ≡ (o.snapshot.symbol, fl.div (fl.sub tick.ask tick.bid) info.point) ∷ []
    pub points :
        (tick : Tick F) (info : SymbolInfo F)
        → o.snapshot.tick ≡ some tick
        → o.snapshot.symbol_info ≡ some info
        → (lit 0 <? info.point) ≡ true
        → x.symbol_points ≡ (o.snapshot.symbol, info.point) ∷ []

  pub risk_context-IsContext :
      (o : Observation F) (clock : Datetime) → IsContext o clock (risk_context o clock)
  unfolding risk_context points_of tick_spread
  risk_context-IsContext o clock = record {
    account = refl;
    positions = refl;
    orders = refl;
    server_time = refl;
    day_pnl = refl;
    recent_decisions = refl;
    no_spread = λ t. rw t refl;
    spreads = λ tick info t i h. rw (t, i, h) refl;
    points = λ tick info t i h. rw (t, i, h) refl;
  }

module _ {F W : Type 0} ⦃fl : Float F⦄ (a : TradingAgent F W) (clock : Datetime) where
  -- What the agent's planner proposed, in some state of the world, for what was observed.
  pub record Planned (o : Observation F) (p : TradeProposal F) : Type 0 where
    pub input : PlannerInput F
    pub of_observation : IsInput o input
    pub asked_in : W
    pub proposed : answer_of a.planner input clock asked_in ≡ ok p
