-- ===== src/Risk/Supervisor/Runs.antt =====
-- Two reviews of mt5_agent/risk/supervisor.py with any run of reviews between them.
use llm_mt5_agent.Prelude.{
  ◌≡◌, refl, sym, ap, ◌∙◌, String, true, false, List, In, In-append_right, inl,
}
use llm_mt5_agent.Python.Errors.{ok}
use llm_mt5_agent.Python.Float.{Float, IsOrdered, lit, Datetime, total_seconds}
use llm_mt5_agent.Domain.Planning.{hold, action_eq, action_value}
use llm_mt5_agent.Risk.Rules
use llm_mt5_agent.Risk.Engine.{now_or}
use llm_mt5_agent.Risk.Supervisor.{Supervisor, SupervisorDecision, review}
use llm_mt5_agent.Risk.Supervisor.Ledger.{row, review-check}
use llm_mt5_agent.Risk.Supervisor.History.{
  Call, review_call, reviews, engine-reviews, In-reviews, Refuses, repeat-Refuses, disturb-Refuses,
}

module _ {F : Type 0} ⦃fl : Float F⦄ where
  -- The supervisor after a first review and a run of reviews.
  abbrev pub before_last : (String → String) → Supervisor F → Call F → List (Call F) → Supervisor F
  before_last repr s first between = reviews repr (review_call repr s first) between

  -- The moment of a verdict.
  abbrev pub decided : Call F → Datetime
  decided k = now_or k.now k.clock

module _ {F : Type 0} ⦃fl : Float F⦄ (ord : IsOrdered fl) (repr : String → String)
    (s : Supervisor F) (first : Call F) (between : List (Call F)) (last : Call F) where
  engine-before_last : (before_last repr s first between).engine ≡ s.engine
  engine-before_last =
      let (_, _, _, _, _, _, _, e) =
        review-check ord repr s first.proposal first.context first.now first.clock in
      engine-reviews ord repr (review_call repr s first) between ∙ e

  first_entry :
      action_eq first.proposal.action hold ≡ false
      → (d : SupervisorDecision F)
      → (review repr s first.proposal first.context first.now first.clock).1 ≡ ok d
      → In (row first.proposal d.approved (decided first)) (before_last repr s first between).ledger
  first_entry directional d answered =
      let (d', f, _, _, _, _, e, _) =
        review-check ord repr s first.proposal first.context first.now first.clock in
      let same : d'.approved ≡ d.approved = cc in
      In-reviews ord repr (review_call repr s first) between _
        (rw e (In-append_right _ s.ledger _ (rw (directional, same) (inl refl))))

  -- After a review that approves a BUY or SELL, and any run of reviews, a review of the same action
  -- on the same symbol is refused with the code DUPLICATE_TRADE, if its context's time is 0 or more
  -- seconds after the approval and at most the duplicate window, the window is not off and the
  -- engine has the duplicate rule.
  -- The floats are ordered as IEEE 754 says of them (`IsOrdered`).
  pub duplicate_refused :
      (d : SupervisorDecision F)
      → (review repr s first.proposal first.context first.now first.clock).1 ≡ ok d
      → d.approved ≡ true
      → action_eq first.proposal.action hold ≡ false
      → last.proposal.action ≡ first.proposal.action
      → last.proposal.symbol ≡ first.proposal.symbol
      → In Rules.duplicate s.engine.rules
      → fl.le s.engine.config.duplicate_window_s (lit 0) ≡ false
      → fl.le (lit 0) (total_seconds last.context.server_time (decided first)) ≡ true
      → fl.le
          (total_seconds last.context.server_time (decided first))
          s.engine.config.duplicate_window_s
        ≡ true
      → Refuses repr (before_last repr s first between) last Rules.duplicate
  duplicate_refused d answered approved directional same_action same_symbol on w past recent =
      let engine = engine-before_last in
      repeat-Refuses ord repr (before_last repr s first between) _ last
        (first_entry directional d answered) (rw same_action directional) (rw engine on) approved
        (sym same_symbol) (ap action_value (sym same_action)) (rw engine w) past (rw engine recent)

  -- After a review of a BUY or SELL, approved or not, and any run of reviews, a review of a BUY or
  -- SELL on the same symbol is refused with the code COOLDOWN_ACTIVE, if its context's time is 0 or
  -- more seconds after the verdict and less than the quiet period, the period is not off and the
  -- engine has the cooldown rule.
  -- The floats are ordered as IEEE 754 says of them (`IsOrdered`).
  pub cooldown_refused :
      (d : SupervisorDecision F)
      → (review repr s first.proposal first.context first.now first.clock).1 ≡ ok d
      → action_eq first.proposal.action hold ≡ false
      → action_eq last.proposal.action hold ≡ false
      → last.proposal.symbol ≡ first.proposal.symbol
      → In Rules.cooldown s.engine.rules
      → fl.le s.engine.config.cooldown_s (lit 0) ≡ false
      → fl.le (lit 0) (total_seconds last.context.server_time (decided first)) ≡ true
      → fl.lt (total_seconds last.context.server_time (decided first)) s.engine.config.cooldown_s
        ≡ true
      → Refuses repr (before_last repr s first between) last Rules.cooldown
  cooldown_refused d answered directional last_directional same_symbol on w past recent =
      let engine = engine-before_last in
      disturb-Refuses ord repr (before_last repr s first between) _ last
        (first_entry directional d answered) last_directional (rw engine on) (sym same_symbol)
        (rw engine w) past (rw engine recent)
