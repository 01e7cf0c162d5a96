-- ===== src/Risk/Tests.antt =====
-- Runs of the rules, the engine and the supervisor, and the theorems about them at those inputs.
use llm_mt5_agent.Prelude.{
  ◌+◌, ◌≡◌, refl, ◌↔◌, true, none, some, List, [], ◌∷◌, ◌++◌, inl, inr, All, arith, ◌*ℤ◌, ◌-ℤ◌,
  ◌+ℤ◌,
}
use llm_mt5_agent.Python.Errors.{ok}
use llm_mt5_agent.Python.Float.{total_seconds}
use llm_mt5_agent.Python.Decimal.{Decimal, decimal, decimal-IsOrdered}
use llm_mt5_agent.Risk.Config.{contains}
use llm_mt5_agent.Risk.Verdict.{Violation, new_validation_result}
use llm_mt5_agent.Risk.Rules
use llm_mt5_agent.Risk.Rules.{default_rules, check}
use llm_mt5_agent.Risk.Rules.Decides.{Decides}
use llm_mt5_agent.Risk.Rules.Spec.{Covers, Passes}
use llm_mt5_agent.Risk.Rules.Session.{contains-iff-Covers}
use llm_mt5_agent.Risk.Rules.Decided.{check-Decides}
use llm_mt5_agent.Risk.Engine.{validate, now_or}
use llm_mt5_agent.Risk.Engine.Reports.{Reports, verdict, validate-Reports, validate-approves_iff}
use llm_mt5_agent.Risk.Supervisor.{SupervisorDecision, check as check_proposal, review}
use llm_mt5_agent.Risk.Supervisor.Ledger.{decision, new_rows, review-check}
use llm_mt5_agent.Risk.Supervisor.History.{Call, Refuses}
use llm_mt5_agent.Risk.Supervisor.Runs.{before_last, duplicate_refused, cooldown_refused}
use llm_mt5_agent.Samples.{noon, quoted, config, context_at, proposal, engine, supervisor}

approves : validate quoted engine proposal (context_at noon) none noon ≡ ok (verdict [] noon)
unfolding validate check new_validation_result ◌*ℤ◌ ◌-ℤ◌ ◌+ℤ◌
approves = refl

-- An evening session over midnight holds 1 o'clock.
contains-iff-Covers_example :
    (contains (record { start_hour = 22; end_hour = 5 }) 1 ≡ true)
    ↔ Covers (record { start_hour = 22; end_hour = 5 }) 1
contains-iff-Covers_example =
    contains-iff-Covers (record { start_hour = 22; end_hour = 5 }) 1 (omega arith) (omega arith)
      (omega arith) (omega arith)

check-Decides_example :
    Decides Rules.max_positions
      (check quoted Rules.max_positions proposal (context_at noon) config)
      (Passes Rules.max_positions proposal (context_at noon) config)
check-Decides_example =
    check-Decides decimal-IsOrdered quoted Rules.max_positions proposal (context_at noon) config

validate-Reports_example :
    (vs : List Violation) × (validate quoted engine proposal (context_at noon) (some noon) 0
      ≡ ok (verdict vs noon))
    × Reports proposal (context_at noon) config default_rules vs
unfolding now_or
validate-Reports_example =
    validate-Reports decimal-IsOrdered quoted engine proposal (context_at noon) (some noon) 0 refl

validate-approves_iff_example :
    (validate quoted engine proposal (context_at noon) (some noon) 0 ≡ ok (verdict [] noon))
    ↔ All (λ rule. Passes rule proposal (context_at noon) config) default_rules
unfolding now_or
validate-approves_iff_example =
    validate-approves_iff decimal-IsOrdered quoted engine proposal (context_at noon) (some noon) 0
      refl

review-check_example :
    (d : SupervisorDecision Decimal) × ((review quoted supervisor proposal
        (context_at noon)
        none
        noon).1
      ≡ ok d)
    × (check_proposal quoted supervisor proposal (context_at noon) (some noon) noon ≡ ok d.result)
    × (d.approved ≡ d.result.approved)
    × (d.proposal ≡ proposal)
    × (d.decided_at ≡ noon)
    × ((review quoted supervisor proposal (context_at noon) none noon).0.ledger
        ≡ [] ++ new_rows proposal d.approved noon)
    × ((review quoted supervisor proposal (context_at noon) none noon).0.engine ≡ engine)
unfolding now_or
review-check_example =
    review-check decimal-IsOrdered quoted supervisor proposal (context_at noon) none noon

abbrev first : Call Decimal
first = record { proposal = proposal; context = context_at noon; now = none; clock = noon }

-- Half a minute later.
abbrev again : Call Decimal
again = record {
  proposal = proposal;
  context = context_at (noon + 30_000_000);
  now = none;
  clock = noon + 30_000_000;
}

first_answer :
    (review quoted supervisor proposal (context_at noon) none noon).1
    ≡ ok (decision proposal [] noon)
unfolding review validate check new_validation_result ◌*ℤ◌ ◌-ℤ◌ ◌+ℤ◌
first_answer = refl

duplicate_refused_example :
    Refuses quoted (before_last quoted supervisor first (again ∷ [])) again Rules.duplicate
unfolding total_seconds ◌*ℤ◌ ◌-ℤ◌ ◌+ℤ◌ now_or
duplicate_refused_example =
    duplicate_refused decimal-IsOrdered quoted supervisor first (again ∷ []) again
      (decision proposal [] noon) first_answer refl refl refl refl (search (inl, inr) depth 14) refl
      refl refl

cooldown_refused_example :
    Refuses quoted (before_last quoted supervisor first []) again Rules.cooldown
unfolding total_seconds ◌*ℤ◌ ◌-ℤ◌ ◌+ℤ◌ now_or
cooldown_refused_example =
    cooldown_refused decimal-IsOrdered quoted supervisor first [] again (decision proposal [] noon)
      first_answer refl refl refl (search (inl, inr) depth 14) refl refl refl
