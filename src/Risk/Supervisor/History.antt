-- ===== src/Risk/Supervisor/History.antt =====
-- Over a run of reviews the ledger of mt5_agent/risk/supervisor.py bars repeats and enforces the
-- quiet period.
use llm_mt5_agent.Prelude.{
  ◌≡◌, refl, sym, ◌∙◌, ◌≢◌, String, Bool, true, false, Option, some, List, [], ◌∷◌, ◌++◌, is_empty,
  In, Any, Any-of_In, In-append_left, In-append_right, In-map, map, ◌⊎◌, inl, inr, arith,
  if◌then◌else◌, str_eq_iff,
}
use llm_mt5_agent.Python.Errors.{ok}
use llm_mt5_agent.Python.Float.{Float, IsOrdered, lit, Datetime, total_seconds}
use llm_mt5_agent.Domain.Planning.{
  TradeAction, buy, sell, hold, action_eq, action_value, TradeProposal,
}
use llm_mt5_agent.Risk.Config.{RiskConfig}
use llm_mt5_agent.Risk.Context.{DecisionRecord, RiskContext}
use llm_mt5_agent.Risk.Verdict
use llm_mt5_agent.Risk.Verdict.{Violation, code_value}
use llm_mt5_agent.Risk.Rules
use llm_mt5_agent.Risk.Rules.{RiskRule, rule_code}
use llm_mt5_agent.Risk.Rules.Spec.{Passes, IsFresh, Repeats, Disturbs}
use llm_mt5_agent.Risk.Engine.{now_or}
use llm_mt5_agent.Risk.Engine.Reports.{Reports-code, validate-Reports}
use llm_mt5_agent.Risk.Supervisor.{
  Supervisor, SupervisorDecision, with_history, decision_codes, review,
}
use llm_mt5_agent.Risk.Supervisor.Ledger.{decision, review-check}

-- The arguments of one call of `review`.
pub record Call (F : Type 0) : Type 0 where
  pub proposal : TradeProposal F
  pub context : RiskContext F
  pub now : Option Datetime
  pub clock : Datetime

module _ {F : Type 0} ⦃fl : Float F⦄ (repr : String → String) where
  abbrev pub review_call : Supervisor F → Call F → Supervisor F
  review_call s k = (review repr s k.proposal k.context k.now k.clock).0

  -- The supervisor after a run of reviews.
  pub reviews : Supervisor F → List (Call F) → Supervisor F
  reviews s [] = s
  reviews s (k ∷ rest) = reviews (review_call s k) rest

  -- A review refuses, with the rule's code, whatever does not meet the demand of one of its rules.
  abbrev pub Refuses : Supervisor F → Call F → RiskRule → Type 0
  Refuses s k rule =
      (d : SupervisorDecision F) × ((review repr s k.proposal k.context k.now k.clock).1 ≡ ok d)
      × (d.approved ≡ false)
      × In (code_value (rule_code rule)) (decision_codes d)

-- What `with_history` shows the rules: every row of the ledger.
In-with_history :
    {F : Type 0} (s : Supervisor F) (x : RiskContext F) (r : DecisionRecord)
    → In r s.ledger
    → In r (with_history s x).recent_decisions
unfolding with_history
In-with_history s x r h = shown s.ledger h
  where
    shown :
        (l : List DecisionRecord)
        → In r l
        → In r
            (if is_empty l
              then x
              else record x { recent_decisions = x.recent_decisions ++ l }).recent_decisions
    shown [] h = absurd h
    shown (q ∷ rest) h = In-append_right r x.recent_decisions (q ∷ rest) h

server_time-with_history :
    {F : Type 0} (s : Supervisor F) (x : RiskContext F)
    → (with_history s x).server_time ≡ x.server_time
unfolding with_history
server_time-with_history s x = ground arith

codes-map :
    (vs : List Violation) → map (λ v. code_value v.code) vs ≡ map code_value (map (λ v. v.code) vs)
codes-map [] = refl
codes-map (v ∷ vs) = rw (codes-map vs)

not-empty_of_In :
    (code : Verdict.ViolationCode) (vs : List Violation)
    → In code (map (λ v. v.code) vs)
    → is_empty vs ≡ false
not-empty_of_In code [] h = absurd h
not-empty_of_In code (v ∷ vs) h = refl

action_value-ne-hold :
    (a : TradeAction) → action_eq a hold ≡ false → action_value a ≢ action_value hold
unfolding action_value
action_value-ne-hold buy h e = cc ((str_eq_iff "BUY" "HOLD").1 e)
action_value-ne-hold sell h e = cc ((str_eq_iff "SELL" "HOLD").1 e)
action_value-ne-hold hold h e = cc

-- For a BUY or SELL the duplicate rule demands that no decision in the window repeats the trade.
no_repeat :
    {F : Type 0} ⦃fl : Float F⦄ (p : TradeProposal F) (x : RiskContext F) (c : RiskConfig F)
    (a : TradeAction)
    → action_eq a hold ≡ false
    → IsFresh p x c (Rules.side_of a)
    → (fl.le c.duplicate_window_s (lit 0) ≡ true)
      ⊎ ¬ Any (Repeats p c.duplicate_window_s x.server_time) x.recent_decisions
unfolding Rules.side_of
no_repeat p x c buy h fresh = fresh.1
no_repeat p x c sell h fresh = fresh.1
no_repeat p x c hold h fresh = cc

-- A demand that is off, or that something stands against, is not met.
unmet : {A : Type 0} (b : Bool) → b ≡ false → A → ¬ ((b ≡ true) ⊎ ¬ A)
unmet b off a (inl on) = cc
unmet b off a (inr n) = n a

module _ {F : Type 0} ⦃fl : Float F⦄ (ord : IsOrdered fl) (repr : String → String) where
  pub engine-reviews :
      (s : Supervisor F) (calls : List (Call F)) → (reviews repr s calls).engine ≡ s.engine
  unfolding reviews
  engine-reviews s [] = refl
  engine-reviews s (k ∷ rest) =
      let (_, _, _, _, _, _, _, e) = review-check ord repr s k.proposal k.context k.now k.clock in
      engine-reviews (review_call repr s k) rest ∙ e

  pub In-reviews :
      (s : Supervisor F) (calls : List (Call F)) (r : DecisionRecord)
      → In r s.ledger
      → In r (reviews repr s calls).ledger
  unfolding reviews
  In-reviews s [] r h = h
  In-reviews s (k ∷ rest) r h =
      let (_, _, _, _, _, _, e, _) = review-check ord repr s k.proposal k.context k.now k.clock in
      In-reviews (review_call repr s k) rest r (rw e (In-append_left r s.ledger _ h))

  review-Refuses :
      (s : Supervisor F) (k : Call F) (rule : RiskRule)
      → action_eq k.proposal.action hold ≡ false
      → In rule s.engine.rules
      → ¬ Passes rule k.proposal (with_history s k.context) s.engine.config
      → Refuses repr s k rule
  unfolding review decision_codes
  review-Refuses s k rule directional i n =
      let at = now_or k.now k.clock in
      let (vs, f, r) =
        validate-Reports ord repr s.engine k.proposal (with_history s k.context) (some at) k.clock
          directional in
      let found = Reports-code r rule i n in
      (
        decision k.proposal vs at,
        rw (f, review),
        not-empty_of_In _ vs found,
        rw codes-map (In-map code_value _ _ found),
      )

  -- Once the ledger holds the approval of a trade, a review of the same trade within the window is
  -- refused.
  pub repeat-Refuses :
      (s : Supervisor F) (r : DecisionRecord) (k : Call F)
      → In r s.ledger
      → action_eq k.proposal.action hold ≡ false
      → In Rules.duplicate s.engine.rules
      → r.approved ≡ true
      → r.symbol ≡ k.proposal.symbol
      → r.action ≡ action_value k.proposal.action
      → fl.le s.engine.config.duplicate_window_s (lit 0) ≡ false
      → fl.le (lit 0) (total_seconds k.context.server_time r.at) ≡ true
      → fl.le (total_seconds k.context.server_time r.at) s.engine.config.duplicate_window_s ≡ true
      → Refuses repr s k Rules.duplicate
  repeat-Refuses s r k i directional on a e f w past recent =
      let y = with_history s k.context in
      let c = s.engine.config in
      let same = server_time-with_history s k.context in
      let repeated : Repeats k.proposal c.duplicate_window_s y.server_time r = record {
        approved = a;
        directional = λ g. action_value-ne-hold k.proposal.action directional (sym f ∙ g);
        same_symbol = e;
        same_action = f;
        past = rw same past;
        recent = rw same recent;
      } in
      review-Refuses s k Rules.duplicate directional on (λ fresh.
        unmet _ w (Any-of_In _ r y.recent_decisions (In-with_history s k.context r i) repeated)
          (no_repeat k.proposal y c k.proposal.action directional fresh))

  -- Once the ledger holds a decision on a symbol, a review of the symbol within the quiet period is
  -- refused.
  pub disturb-Refuses :
      (s : Supervisor F) (r : DecisionRecord) (k : Call F)
      → In r s.ledger
      → action_eq k.proposal.action hold ≡ false
      → In Rules.cooldown s.engine.rules
      → r.symbol ≡ k.proposal.symbol
      → fl.le s.engine.config.cooldown_s (lit 0) ≡ false
      → fl.le (lit 0) (total_seconds k.context.server_time r.at) ≡ true
      → fl.lt (total_seconds k.context.server_time r.at) s.engine.config.cooldown_s ≡ true
      → Refuses repr s k Rules.cooldown
  disturb-Refuses s r k i directional on e w past recent =
      let y = with_history s k.context in
      let same = server_time-with_history s k.context in
      let disturbed : Disturbs k.proposal.symbol s.engine.config.cooldown_s y.server_time r =
        record { same_symbol = e; past = rw same past; recent = rw same recent } in
      review-Refuses s k Rules.cooldown directional on
        (unmet _ w (Any-of_In _ r y.recent_decisions (In-with_history s k.context r i) disturbed))
