-- ===== src/Risk/Engine/Reports.antt =====
-- What `RiskEngine.validate` of mt5_agent/risk/engine.py reports, against the rules' demands.
use llm_mt5_agent.Prelude.{
  ◌≡◌, refl, ap, ◌∙◌, ◌↔◌, inl, inr, String, true, false, not, Option, List, [], ◌∷◌, ◌++◌, All, In,
  is_empty, Bool-cases, map, if◌then◌else◌,
}
use mathlib.Core.List.{append-nil, append_assoc}
use llm_mt5_agent.Python.Errors.{ok}
use llm_mt5_agent.Python.Float.{Float, IsOrdered, Datetime}
use llm_mt5_agent.Domain.Planning.{hold, action_eq, TradeProposal}
use llm_mt5_agent.Risk.Config.{RiskConfig}
use llm_mt5_agent.Risk.Context.{RiskContext}
use llm_mt5_agent.Risk.Verdict.{Violation, ValidationResult, new_validation_result}
use llm_mt5_agent.Risk.Rules.{RiskRule, rule_code}
use llm_mt5_agent.Risk.Rules.Decides.{violation}
use llm_mt5_agent.Risk.Rules.Spec.{Passes}
use llm_mt5_agent.Risk.Rules.Decided.{check-Decides}
use llm_mt5_agent.Risk.Engine.{RiskEngine, append_some, now_or, run_rules, validate}

module _ {F : Type 0} ⦃fl : Float F⦄ where
  -- The violations of a list of rules: one for each rule whose demand is not met, in their order.
  pub data Reports (p : TradeProposal F) (x : RiskContext F) (c : RiskConfig F)
      : List RiskRule → List Violation → Type 0 where
    done : Reports p x c [] []
    meets :
        {rule : RiskRule} {rest : List RiskRule} {vs : List Violation}
        → Passes rule p x c
        → Reports p x c rest vs
        → Reports p x c (rule ∷ rest) vs
    breaks :
        {rule : RiskRule} {rest : List RiskRule} {vs : List Violation} (message : String)
        → ¬ Passes rule p x c
        → Reports p x c rest vs
        → Reports p x c (rule ∷ rest) (violation rule message ∷ vs)

  module _ (ord : IsOrdered fl) (repr : String → String) (p : TradeProposal F) (x : RiskContext F)
      (c : RiskConfig F) where
    run_rules-Reports :
        (rules : List RiskRule) (vs : List Violation)
        → (ws : List Violation) × (run_rules repr p x c rules vs ≡ ok (vs ++ ws))
          × Reports p x c rules ws
    unfolding run_rules append_some
    run_rules-Reports [] vs = ([], rw append-nil, done)
    run_rules-Reports (rule ∷ rest) vs = elim (check-Decides ord repr rule p x c) [
      | inl (e, h) ↦ let (ws, f, g) = run_rules-Reports rest vs in (ws, rw e f, meets h g)
      | inr (m, e, n) ↦
          let (ws, f, g) = run_rules-Reports rest (vs ++ (violation rule m ∷ [])) in
          (violation rule m ∷ ws, rw e (rw append_assoc at f), breaks m n g)
    ]

  Reports-nil :
      {p : TradeProposal F} {x : RiskContext F} {c : RiskConfig F} {rules : List RiskRule}
      {vs : List Violation}
      → Reports p x c rules vs
      → vs ≡ []
      → All (λ rule. Passes rule p x c) rules
  Reports-nil done e = tt
  Reports-nil (meets h r) e = (h, Reports-nil r e)
  Reports-nil (breaks m n r) e = cc

  Reports-All :
      {p : TradeProposal F} {x : RiskContext F} {c : RiskConfig F} {rules : List RiskRule}
      {vs : List Violation}
      → Reports p x c rules vs
      → All (λ rule. Passes rule p x c) rules
      → vs ≡ []
  Reports-All done all = refl
  Reports-All (meets h r) all = Reports-All r all.1
  Reports-All (breaks m n r) all = absurd (n all.0)

  -- The code of a rule whose demand is not met is reported.
  pub Reports-code :
      {p : TradeProposal F} {x : RiskContext F} {c : RiskConfig F} {rules : List RiskRule}
      {vs : List Violation}
      → Reports p x c rules vs
      → (rule : RiskRule) → In rule rules
      → ¬ Passes rule p x c
      → In (rule_code rule) (map (λ v. v.code) vs)
  Reports-code done rule h n = absurd h
  Reports-code {p} {x} {c} (meets h r) rule (inl e) n = absurd (n (rw e h))
  Reports-code (meets h r) rule (inr i) n = Reports-code r rule i n
  Reports-code (breaks m k r) rule (inl e) n = inl (ap rule_code e)
  Reports-code (breaks m k r) rule (inr i) n = inr (Reports-code r rule i n)

-- The verdict that carries these violations: approved exactly if there are none.
abbrev pub verdict : List Violation → Datetime → ValidationResult
verdict vs at = record { approved = is_empty vs; violations = vs; checked_at = at }

module _ {F : Type 0} ⦃fl : Float F⦄ (ord : IsOrdered fl) (repr : String → String)
    (e : RiskEngine F) (p : TradeProposal F) (x : RiskContext F) (now : Option Datetime)
    (clock : Datetime) (directional : action_eq p.action hold ≡ false) where
  -- For a proposal that is no HOLD, with any set of rules, `validate` returns, and raises in no
  -- case: its violations are one for each rule whose demand is not met, in the order of the rules,
  -- each with the code and the name of its rule, it is approved exactly if there are none, and it
  -- is stamped with `now`, or with the clock where none is given.
  -- The floats are ordered as IEEE 754 says of them (`IsOrdered`).
  pub validate-Reports :
      (vs : List Violation) × (validate repr e p x now clock ≡ ok (verdict vs (now_or now clock)))
      × Reports p x e.config e.rules vs
  unfolding validate new_validation_result
  validate-Reports =
      let (vs, f, r) = run_rules-Reports ord repr p x e.config e.rules [] in
      (vs, rw directional (rw f (finish vs)), r)
    where
      finish :
          (vs : List Violation)
          → (if not (is_empty vs)
              then new_validation_result
                  (record { approved = false; violations = vs; checked_at = now_or now clock })
              else new_validation_result
                  (record { approved = true; violations = []; checked_at = now_or now clock }))
            ≡ ok (verdict vs (now_or now clock))
      finish [] = refl
      finish (v ∷ vs) = refl

  -- A proposal that is no HOLD is approved exactly if it meets the demand of every rule.
  -- The floats are ordered as IEEE 754 says of them (`IsOrdered`).
  pub validate-approves_iff :
      (validate repr e p x now clock ≡ ok (verdict [] (now_or now clock)))
      ↔ All (λ rule. Passes rule p x e.config) e.rules
  validate-approves_iff =
      let (vs, f, r) = validate-Reports in
      (
        λ g. Reports-nil r (same vs f g),
        λ all. f ∙ ap (λ ws. ok (verdict ws (now_or now clock))) (Reports-All r all),
      )
    where
      same :
          (vs : List Violation)
          → validate repr e p x now clock ≡ ok (verdict vs (now_or now clock))
          → validate repr e p x now clock ≡ ok (verdict [] (now_or now clock))
          → vs ≡ []
      same vs f g = cc

-- `validate` returns a verdict for every proposal, a HOLD included.
pub validate_total :
    {F : Type 0} ⦃fl : Float F⦄ (ord : IsOrdered fl) (repr : String → String) (e : RiskEngine F)
    (p : TradeProposal F) (x : RiskContext F) (now : Option Datetime) (clock : Datetime)
    → (vs : List Violation) × (validate repr e p x now clock ≡ ok (verdict vs (now_or now clock)))
unfolding validate new_validation_result
validate_total ord repr e p x now clock = elim (Bool-cases (action_eq p.action hold)) [
  | inl h ↦ ([], rw h)
  | inr h ↦ let (vs, f, _) = validate-Reports ord repr e p x now clock h in (vs, f)
]
