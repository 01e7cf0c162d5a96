-- ===== src/Logging/Tests.antt =====
-- Scrubbing on concrete values.
use llm_mt5_agent.Prelude.{starts_with, occurs_in, ℕ, String, ◌≡◌, refl}
use llm_mt5_agent.Ai.Json.{Json, object, Members, no_member, member}
use llm_mt5_agent.Logging.{Patterns, is_secret_key, audit_fields, filtered_fields}
use llm_mt5_agent.Logging.Secrets.{
  same, objects, AlikeMembers, ended, hidden, shown, audit_fields-Alike,
}

-- No pattern matches, and keys are in lower case.
abbrev plain : Patterns
plain = record { sub_pairs = λ s. s; sub_bearer = λ s. s; lower = λ s. s }

-- Credentials of an account, nested under a key that is no secret.
abbrev fields : String → Members ℕ
fields secret =
    member "symbol" (Json.text "EURUSD")
      (member "account" (object (member "password" (Json.text secret) no_member)) no_member)

fields-Alike : AlikeMembers plain (fields "alpha") (fields "beta")
unfolding is_secret_key occurs_in starts_with
fields-Alike =
    shown "symbol" (same (Json.text "EURUSD"))
      (shown "account" (objects (hidden "password" refl ended)) ended)

audit_fields-Alike_example :
    filtered_fields plain (audit_fields plain "login" "now" (fields "alpha"))
    ≡ filtered_fields plain (audit_fields plain "login" "now" (fields "beta"))
audit_fields-Alike_example = audit_fields-Alike plain "login" "now" fields-Alike
