-- ===== src/Application/Agent/Lawful.antt =====
-- mt5_agent/application/agent.py with risk/rules.py: the rules that an order of a cycle meets.
use llm_mt5_agent.Prelude.{
  is_empty, All, String, ◌≡◌, sym, ap, ◌∙◌, ◌⊎◌, inl, inr, true, false, none, some, List, [], ◌∷◌,
}
use llm_mt5_agent.Python.Errors.{ok, ok-inj}
use llm_mt5_agent.Python.Float.{Float, Datetime, IsOrdered}
use llm_mt5_agent.Domain.Market.{Timeframe}
use llm_mt5_agent.Domain.Planning.{TradeProposal, action_eq, hold}
use llm_mt5_agent.Risk.Context.{RiskContext}
use llm_mt5_agent.Risk.Verdict.{Violation}
use llm_mt5_agent.Risk.Engine.{validate, now_or}
use llm_mt5_agent.Risk.Engine.Reports.{verdict, validate_total, validate-approves_iff}
use llm_mt5_agent.Risk.Rules.Spec.{Passes}
use llm_mt5_agent.Risk.Supervisor.{Supervisor, SupervisorDecision, with_history, check, review}
use llm_mt5_agent.Risk.Supervisor.Ledger.{review-check}
use llm_mt5_agent.Application.Agent.State.{TradingAgent, AgentState, Moment}
use llm_mt5_agent.Application.Agent.Cycle.{run_cycle}
use llm_mt5_agent.Application.Agent.Orders.{Ordered, run_cycle-Acts}
use llm_mt5_agent.Execution.Session.{Payload}

module _ {F : Type 0} ⦃fl : Float F⦄ where
  -- The proposal meets the demand of each rule of the supervisor's engine.
  abbrev pub Lawful : Supervisor F → TradeProposal F → RiskContext F → Type 0
  Lawful s p x = All (λ rule. Passes rule p (with_history s x) s.engine.config) s.engine.rules

module _ {F : Type 0} ⦃fl : Float F⦄ (ord : IsOrdered fl) (repr : String → String) where
  no_violations :
      (s : Supervisor F) (p : TradeProposal F) (x : RiskContext F) (clock : Datetime)
      (vs : List Violation)
      → action_eq p.action hold ≡ false
      → validate repr s.engine p (with_history s x) (some clock) clock ≡ ok (verdict vs clock)
      → is_empty vs ≡ true
      → Lawful s p x
  unfolding now_or
  no_violations s p x clock [] h e _ =
      (validate-approves_iff ord repr s.engine p (with_history s x) (some clock) clock h).0 e
  no_violations s p x clock (v ∷ vs) h e k = cc

  -- What a review approves, if it is no HOLD, meets every rule.
  pub review-Lawful :
      (s : Supervisor F) (p : TradeProposal F) (x : RiskContext F) (clock : Datetime)
      (d : SupervisorDecision F)
      → (review repr s p x none clock).1 ≡ ok d
      → d.approved ≡ true
      → action_eq d.proposal.action hold ≡ false
      → Lawful s d.proposal x
  unfolding check now_or
  review-Lawful s p x clock d e h k =
      let (d', e', c, b, q, _, _, _) = review-check ord repr s p x none clock in
      let (vs, f) = validate_total ord repr s.engine p (with_history s x) (some clock) clock in
      let same : d ≡ d' = ok-inj (sym e ∙ e') in
      let result : d'.result ≡ verdict vs clock = ok-inj (sym c ∙ f) in
      let empty : is_empty vs ≡ true =
        sym (ap (λ r. r.approved) result) ∙ (sym b ∙ (ap (λ r. r.approved) (sym same) ∙ h)) in
      let given : d.proposal ≡ p = ap (λ r. r.proposal) same ∙ q in
      rw given
        (no_violations s p x clock vs (ap (λ r. action_eq r.action hold) (sym given) ∙ k) f empty)

module _ {F W : Type 0} ⦃fl : Float F⦄ (repr : String → String) (a : TradingAgent F W)
    (s : AgentState F W) (symbol : String) (timeframe : Timeframe) (m : Moment) where
  -- An order that was sent, with what the rules say of it.
  abbrev pub LawfulOrder : List (Payload F) → Type 0
  LawfulOrder sent =
      (order : Ordered repr a s symbol timeframe m sent) × Lawful s.supervisor
        order.decision.proposal order.reviewed.context

module _ {F W : Type 0} ⦃fl : Float F⦄ (ord : IsOrdered fl) (repr : String → String)
    (a : TradingAgent F W) (s : AgentState F W) (symbol : String) (timeframe : Timeframe)
    (m : Moment) where
  -- Every rule of the supervisor's engine, for the proposal of an order and what was observed.
  pub Ordered-Lawful :
      {sent : List (Payload F)} (order : Ordered repr a s symbol timeframe m sent)
      → Lawful s.supervisor order.decision.proposal order.reviewed.context
  Ordered-Lawful order =
      review-Lawful ord repr s.supervisor order.reviewed.proposal order.reviewed.context m.clock
        order.decision order.reviewed.answered order.allowed.approved order.allowed.directional

  -- A cycle leaves the sent orders as they are, or adds one order whose proposal meets the demand of
  -- every rule of the supervisor's engine, in the light of the supervisor's ledger as it was when the
  -- cycle began and of a context that has the account, its day's profit, the positions, the orders
  -- and the spread which the services answered at the start of this cycle. The decision on it is what
  -- the supervisor answered in this cycle to what the planner proposed, in some state of the world,
  -- for an input with the same market, account and positions, with the default volume where the
  -- planner named none; and the executor sends it under the cycle's new id with all its guards passed.
  -- The floats are ordered as IEEE 754 says of them (`IsOrdered`).
  pub run_cycle-LawfulOrder :
      let sent = (run_cycle repr a s symbol timeframe m).1.session.sent in
      (sent ≡ s.session.sent) ⊎ LawfulOrder repr a s symbol timeframe m sent
  run_cycle-LawfulOrder = elim (run_cycle-Acts repr a s symbol timeframe m) [
    | inl e ↦ inl e
    | inr order ↦ inr (order, Ordered-Lawful order)
  ]
