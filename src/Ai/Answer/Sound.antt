-- ===== src/Ai/Answer/Sound.antt =====
-- mt5_agent/ai/planner.py: what a proposal that `validate_proposal` returns satisfies.
use llm_mt5_agent.Prelude.{
  ◌≡◌, refl, Bool, true, false, not, ◌&&◌, Option, none, some, is_blank, str_eq, arith,
  not-eq-false,
}
use llm_mt5_agent.Python.Bind.{Returns, Returns-bind, Returns-raise_if}
use llm_mt5_agent.Python.Float.{Float, ◌<?◌, ◌≤?◌, lit}
use llm_mt5_agent.Domain.Strategy.{Direction, long, short, flat, direction_value}
use llm_mt5_agent.Domain.Planning.{
  action_eq, TradeAction, buy, sell, hold, PlannerInput, TradeProposal, new_trade_proposal,
  set_nonpositive,
}
use llm_mt5_agent.Ai.Json.{Members, Builtins}
use llm_mt5_agent.Ai.Answer.{
  expected_direction, disordered, Origin, Answer, clamp01, check_risk, required, hold_answer,
  directional_answer, by_action, read_action, read_answer, validate_proposal,
}

and-left : (a b : Bool) → (a && b) ≡ true → a ≡ true
and-left a b h = ground arith

and-right : (a b : Bool) → (a && b) ≡ true → b ≡ true
and-right a b h = ground arith

-- The direction whose value is the expected one is the one of the action.
buy_direction :
    (d : Direction) → not (str_eq (direction_value d) (expected_direction buy)) ≡ false → d ≡ long
unfolding direction_value
buy_direction long h = refl
buy_direction short h = cc
buy_direction flat h = cc

sell_direction :
    (d : Direction) → not (str_eq (direction_value d) (expected_direction sell)) ≡ false → d ≡ short
unfolding direction_value
sell_direction long h = cc
sell_direction short h = refl
sell_direction flat h = cc

module _ {F : Type 0} ⦃fl : Float F⦄ where
  -- A price that is set and not at most zero.
  abbrev pub IsPrice : Option F → F → Type 0
  IsPrice o x = (o ≡ some x) × ((x ≤? lit 0) ≡ false)

  -- The three prices of a directional proposal, `low` below the entry below `high`.
  pub record Bracket (p : TradeProposal F) (low high : Option F) : Type 0 where
    pub entry : F
    pub below : F
    pub above : F
    pub is_entry : IsPrice p.entry entry
    pub is_below : IsPrice low below
    pub is_above : IsPrice high above
    pub below_entry : (below <? entry) ≡ true
    pub entry_above : (entry <? above) ≡ true

  -- What the action demands of the signal and of the prices.
  abbrev pub Shape : Direction → TradeAction → TradeProposal F → Type 0
  Shape d buy p = (d ≡ long) × Bracket p p.stop_loss p.take_profit
  Shape d sell p = (d ≡ short) × Bracket p p.take_profit p.stop_loss
  Shape d hold p =
      (p.entry ≡ none) × (p.stop_loss ≡ none) × (p.take_profit ≡ none) × (p.volume ≡ none)

  -- What `TradeProposal` checks of any proposal.
  pub record Checked (p : TradeProposal F) : Type 0 where
    pub confidence : (lit 0 ≤? p.confidence && p.confidence ≤? lit 1) ≡ true
    pub rationale : is_blank p.rationale ≡ false
    pub risk_pct : (lit 0 ≤? p.risk_pct && p.risk_pct ≤? lit 100) ≡ true
    pub volume : set_nonpositive p.volume ≡ false
    pub entry : set_nonpositive p.entry ≡ false
    pub stop_loss : set_nonpositive p.stop_loss ≡ false
    pub take_profit : set_nonpositive p.take_profit ≡ false

  -- A proposal that may stand for the input.
  pub record Sound (i : PlannerInput F) (p : TradeProposal F) : Type 0 where
    pub symbol : p.symbol ≡ i.symbol
    pub checked : Checked p
    pub shape : Shape i.signal.direction p.action p

  pub new_trade_proposal-Returns :
      (P : TradeProposal F → Type 0) (p : TradeProposal F)
      → (Checked p → P p)
      → Returns P (new_trade_proposal p)
  unfolding new_trade_proposal
  new_trade_proposal-Returns P p h = Returns-raise_if P _ _ _ (λ _. Returns-raise_if P _ _ _ (λ c.
      Returns-raise_if P _ _ _ (λ t. Returns-raise_if P _ _ _ (λ r. Returns-raise_if P _ _ _ (λ v.
        Returns-raise_if P _ _ _ (λ e. Returns-raise_if P _ _ _ (λ s. Returns-raise_if P _ _ _ (λ g.
          Returns-raise_if P _ _ _ (λ _. h (record {
            confidence = not-eq-false _ c;
            rationale = t;
            risk_pct = not-eq-false _ r;
            volume = v;
            entry = e;
            stop_loss = s;
            take_profit = g;
          }))))))))))

  hold_answer-Sound :
      (i : PlannerInput F) (o : Origin F) (a : Answer F) → Returns (Sound i) (hold_answer i o a)
  unfolding hold_answer
  hold_answer-Sound i o a = Returns-bind (Sound i) (clamp01 a.confidence) _ (λ c _.
      Returns-bind (Sound i) (check_risk a.risk_pct) _ (λ r _.
        new_trade_proposal-Returns (Sound i) _
          (λ ck. record { symbol = refl; checked = ck; shape = (refl, refl, refl, refl) })))

  -- The checks of `directional_answer` make the shape of its action.
  directional-Shape :
      (action : TradeAction) (d : Direction) (p : TradeProposal F) (e s g : F)
      → action_eq action hold ≡ false
      → not (str_eq (direction_value d) (expected_direction action)) ≡ false
      → disordered action e s g ≡ false
      → IsPrice p.entry e
      → IsPrice p.stop_loss s
      → IsPrice p.take_profit g
      → Shape d action p
  directional-Shape buy d p e s g n h o ie is ig = (
    buy_direction d h,
    record {
      entry = e;
      below = s;
      above = g;
      is_entry = ie;
      is_below = is;
      is_above = ig;
      below_entry = and-left _ _ (not-eq-false _ o);
      entry_above = and-right _ _ (not-eq-false _ o);
    },
  )
  directional-Shape sell d p e s g n h o ie is ig = (
    sell_direction d h,
    record {
      entry = e;
      below = g;
      above = s;
      is_entry = ie;
      is_below = ig;
      is_above = is;
      below_entry = and-left _ _ (not-eq-false _ o);
      entry_above = and-right _ _ (not-eq-false _ o);
    },
  )
  directional-Shape hold d p e s g n h o ie is ig = cc

  directional_answer-Sound :
      (action : TradeAction) (i : PlannerInput F) (o : Origin F) (a : Answer F)
      → action_eq action hold ≡ false
      → Returns (Sound i) (directional_answer action i o a)
  unfolding directional_answer
  directional_answer-Sound action i o a n = Returns-raise_if (Sound i) _ _ _ (λ d.
      Returns-bind (Sound i) (required a.entry _) _ (λ e _.
        Returns-bind (Sound i) (required a.stop_loss _) _ (λ s _.
          Returns-bind (Sound i) (required a.take_profit _) _ (λ g _.
            Returns-raise_if (Sound i) _ _ _ (λ ordered. Returns-raise_if (Sound i) _ _ _ (λ _.
              Returns-bind (Sound i) (clamp01 a.confidence) _ (λ c _.
                Returns-bind (Sound i) (check_risk a.risk_pct) _ (λ r _.
                  new_trade_proposal-Returns (Sound i) _ (λ ck. record {
                    symbol = refl;
                    checked = ck;
                    shape =
                        directional-Shape action i.signal.direction _ e s g n d ordered
                          (refl, ck.entry) (refl, ck.stop_loss) (refl, ck.take_profit);
                  })))))))))

  by_action-Sound :
      (action : TradeAction) (i : PlannerInput F) (o : Origin F) (a : Answer F)
      → Returns (Sound i) (by_action action i o a)
  unfolding by_action
  by_action-Sound buy i o a = directional_answer-Sound buy i o a refl
  by_action-Sound sell i o a = directional_answer-Sound sell i o a refl
  by_action-Sound hold i o a = hold_answer-Sound i o a

  -- Whatever object the model answers, a proposal that `validate_proposal` returns is on the
  -- input's symbol, has a confidence in 0..1, a risk in 0..100, a rationale that is not blank and no
  -- set price or volume that compares as at most 0; a BUY stands only on a LONG signal with
  -- stop_loss < entry < take_profit, a SELL only on a SHORT signal with take_profit < entry <
  -- stop_loss, and a HOLD has no entry, stop, target or volume.
  pub validate_proposal-Sound :
      (b : Builtins F) (answer : Members F) (i : PlannerInput F) (o : Origin F)
      → Returns (Sound i) (validate_proposal b answer i o)
  unfolding validate_proposal
  validate_proposal-Sound b answer i o =
      Returns-bind (Sound i) (read_action b answer) _ (λ action _.
        Returns-bind (Sound i) (read_answer b answer) _ (λ a _. by_action-Sound action i o a))
