-- ===== src/Risk/Rules/Decides.antt =====
-- When a check of mt5_agent/risk/rules.py is decided by a condition, and how such facts combine.
use llm_mt5_agent.Prelude.{
  ◌≡◌, refl, ◌↔◌, ◌⊎◌, inl, inr, String, is_blank, Bool, true, false, some, if◌then◌else◌,
}
use llm_mt5_agent.Python.Errors.{ok}
use llm_mt5_agent.Risk.Verdict.{Violation, new_violation}
use llm_mt5_agent.Risk.Rules.Outcome.{RiskRule, rule_code, rule_name, Checked, pass, fail}

-- The violation that `rule` reports with a message.
abbrev pub violation : RiskRule → String → Violation
violation rule message = record { code = rule_code rule; message = message; rule = rule_name rule }

-- The check returns: it passes where `P` holds, and else reports a violation of its rule.
abbrev pub Decides : RiskRule → Checked → Type 0 → Type 0
Decides rule q P =
    (q ≡ pass) × P ⊎ ((message : String) × (q ≡ ok (some (violation rule message))) × ¬ P)

pub fail_lem :
    (rule : RiskRule) (message : String)
    → is_blank message ≡ false
    → fail rule message ≡ ok (some (violation rule message))
unfolding fail new_violation
fail_lem rule message h = rw h

-- A failure decides every condition that is false.
pub fail-Decides :
    (rule : RiskRule) (message : String) {P : Type 0}
    → is_blank message ≡ false
    → ¬ P
    → Decides rule (fail rule message) P
fail-Decides rule message h n = inr (message, fail_lem rule message h, n)

pub if-Decides :
    (rule : RiskRule) (b : Bool) (message : String) (q : Checked) {P : Type 0}
    → is_blank message ≡ false
    → Decides rule q P
    → Decides rule (if b then fail rule message else q) ((b ≡ false) × P)
if-Decides rule true message q h d = inr (message, fail_lem rule message h, λ (e, _). cc)
if-Decides rule false message q h (inl (e, p)) = inl (e, (refl, p))
if-Decides rule false message q h (inr (m, e, n)) = inr (m, e, λ (_, p). n p)

-- The same, where the other branch passes.
pub guard-Decides :
    (rule : RiskRule) (b : Bool) (message : String)
    → is_blank message ≡ false
    → Decides rule (if b then fail rule message else pass) (b ≡ false)
guard-Decides rule true message h = inr (message, fail_lem rule message h, λ e. cc)
guard-Decides rule false message h = inl (refl, refl)

pub Decides-iff :
    (rule : RiskRule) (q : Checked) {P Q : Type 0} → P ↔ Q → Decides rule q P → Decides rule q Q
Decides-iff rule q pq (inl (e, p)) = inl (e, pq.0 p)
Decides-iff rule q pq (inr (m, e, n)) = inr (m, e, λ h. n (pq.1 h))

-- A test that spares the rest of the check.
pub skip-Decides :
    (rule : RiskRule) (b : Bool) (q : Checked) {P : Type 0}
    → Decides rule q P
    → Decides rule (if b then pass else q) ((b ≡ true) ⊎ P)
skip-Decides rule true q d = inl (refl, inl refl)
skip-Decides rule false q (inl (e, p)) = inl (e, inr p)
skip-Decides rule false q {P} (inr (m, e, n)) = inr (m, e, refute)
  where
    refute : ¬ ((false ≡ true) ⊎ P)
    refute (inl k) = cc
    refute (inr p) = n p

pub unless-Decides :
    (rule : RiskRule) (b : Bool) (message : String)
    → is_blank message ≡ false
    → Decides rule (if b then pass else fail rule message) (b ≡ true)
unless-Decides rule true message h = inl (refl, refl)
unless-Decides rule false message h = inr (message, fail_lem rule message h, λ e. cc)

-- A decided check passes exactly if its condition holds.
pub Decides-pass_iff :
    (rule : RiskRule) (q : Checked) {P : Type 0} → Decides rule q P → (q ≡ pass) ↔ P
Decides-pass_iff rule q (inl (e, p)) = (λ _. p, λ _. e)
Decides-pass_iff rule q (inr (m, e, n)) = (λ k. cc, λ p. absurd (n p))
