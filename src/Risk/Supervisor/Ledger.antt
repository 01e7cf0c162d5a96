-- ===== src/Risk/Supervisor/Ledger.antt =====
-- What one `review` of mt5_agent/risk/supervisor.py answers and records, and runs of reviews.
use llm_mt5_agent.Prelude.{
  ◌≡◌, refl, sym, String, Bool, not, Option, some, List, [], ◌∷◌, ◌++◌, is_empty, Bool-cases, inl,
  inr, arith, if◌then◌else◌,
}
use mathlib.Core.List.{append-nil}
use llm_mt5_agent.Python.Errors.{ok}
use llm_mt5_agent.Python.Float.{Float, IsOrdered, Datetime}
use llm_mt5_agent.Domain.Planning.{hold, action_eq, action_value, TradeProposal}
use llm_mt5_agent.Risk.Context.{DecisionRecord, RiskContext}
use llm_mt5_agent.Risk.Verdict.{Violation}
use llm_mt5_agent.Risk.Engine.{now_or}
use llm_mt5_agent.Risk.Engine.Reports.{verdict, validate_total}
use llm_mt5_agent.Risk.Supervisor.{
  Supervisor, SupervisorDecision, with_history, recorded, check, review,
}

module _ {F : Type 0} where
  -- The row that a review of `p` adds to the ledger.
  abbrev pub row : TradeProposal F → Bool → Datetime → DecisionRecord
  row p approved at = record {
    symbol = p.symbol;
    action = action_value p.action;
    approved = approved;
    at = at;
  }

  abbrev pub new_rows : TradeProposal F → Bool → Datetime → List DecisionRecord
  new_rows p approved at = if not (action_eq p.action hold) then row p approved at ∷ [] else []

  abbrev pub decision : TradeProposal F → List Violation → Datetime → SupervisorDecision F
  decision p vs at = record {
    approved = is_empty vs;
    proposal = p;
    result = verdict vs at;
    decided_at = at;
  }

  ledger-recorded :
      (s : Supervisor F) (p : TradeProposal F) (approved : Bool) (at : Datetime)
      → (recorded s p approved at).ledger ≡ s.ledger ++ new_rows p approved at
  unfolding recorded
  ledger-recorded s p approved at = elim (Bool-cases (action_eq p.action hold)) [
    | inl h ↦ rw h (sym (append-nil s.ledger))
    | inr h ↦ rw h
  ]

  engine-recorded :
      (s : Supervisor F) (p : TradeProposal F) (approved : Bool) (at : Datetime)
      → (recorded s p approved at).engine ≡ s.engine
  unfolding recorded
  engine-recorded s p approved at = ground arith

module _ {F : Type 0} ⦃fl : Float F⦄ (ord : IsOrdered fl) (repr : String → String) where
  -- Whatever the proposal, a review returns and raises in no case: it answers what `check` answers at
  -- the same moment, with the proposal as it was given, keeps the engine, and adds to the end of the
  -- ledger one row with the verdict for a BUY or SELL and none for a HOLD.
  -- The floats are ordered as IEEE 754 says of them (`IsOrdered`).
  pub review-check :
      (s : Supervisor F) (p : TradeProposal F) (x : RiskContext F) (now : Option Datetime)
      (clock : Datetime)
      → let at = now_or now clock in
        (d : SupervisorDecision F) × ((review repr s p x now clock).1 ≡ ok d)
        × (check repr s p x (some at) clock ≡ ok d.result)
        × (d.approved ≡ d.result.approved)
        × (d.proposal ≡ p)
        × (d.decided_at ≡ at)
        × ((review repr s p x now clock).0.ledger ≡ s.ledger ++ new_rows p d.approved at)
        × ((review repr s p x now clock).0.engine ≡ s.engine)
  unfolding review check
  review-check s p x now clock =
      let at = now_or now clock in
      let (vs, f) = validate_total ord repr s.engine p (with_history s x) (some at) clock in
      (
        decision p vs at,
        rw (f, review),
        f,
        refl,
        refl,
        refl,
        rw (f, review) (ledger-recorded s p (is_empty vs) at),
        rw (f, review) (engine-recorded s p (is_empty vs) at),
      )
