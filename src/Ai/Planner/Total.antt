-- ===== src/Ai/Planner/Total.antt =====
-- mt5_agent/ai/planner.py: `plan` answers with a sound proposal on every path.
use llm_mt5_agent.Prelude.{
  none, [], ◌∷◌, ◌∙◌, ◌≡◌, refl, String, false, is_blank, is_blank-append, arith, pos, if-cases,
}
use llm_mt5_agent.Python.Errors.{Exception, Result, ok, raise, is_llm_error}
use llm_mt5_agent.Python.Bind.{◌>>=◌, Returns, Returns-bind, bind-ok}
use llm_mt5_agent.Python.Float.{Float, Datetime, HasLiterals}
use llm_mt5_agent.Domain.Planning.{PlannerInput, TradeProposal, new_trade_proposal}
use llm_mt5_agent.Ai.Json.{Json, Builtins}
use llm_mt5_agent.Ai.Prompt.{build_user_prompt}
use llm_mt5_agent.Ai.Llm.{LlmProvider, LlmRequest, new_llm_message, new_llm_request}
use llm_mt5_agent.Ai.Answer.Sound.{Sound, validate_proposal-Sound}
use llm_mt5_agent.Ai.Planner.{
  degraded, degraded_proposal, as_dict, ask, or_hold, plan_request, plan,
}

degraded-not-blank : (e : Exception) → is_blank (degraded e) ≡ false
unfolding degraded is_blank
degraded-not-blank e =
    if-cases (is_llm_error e.class) (λ s. is_blank s ≡ false) (λ _. rw is_blank-append refl)
      (λ _. rw is_blank-append refl)

-- An answer that may stand, for a proposal of the input.
abbrev pub Proposes :
    {F : Type 0} ⦃fl : Float F⦄ → PlannerInput F → Result (TradeProposal F) → Type 0
Proposes {F} i answer = (p : TradeProposal F) × (answer ≡ ok p) × Sound i p

module _ {F : Type 0} ⦃fl : Float F⦄ (literals : HasLiterals fl) where
  -- The replacement passes the checks of `TradeProposal`.
  degraded_proposal-eq-ok :
      (symbol rationale strategy provider model : String) (clock : Datetime)
      → is_blank symbol ≡ false
      → is_blank rationale ≡ false
      → new_trade_proposal {F = F}
          (degraded_proposal symbol rationale strategy provider model clock)
        ≡ ok (degraded_proposal symbol rationale strategy provider model clock)
  unfolding new_trade_proposal degraded_proposal ◌>>=◌
  degraded_proposal-eq-ok symbol rationale strategy provider model clock s r =
      rw
        (
          s,
          r,
          literals.le_lit 0 0 (omega arith) (omega arith),
          literals.le_lit 0 1 (omega arith) (omega arith),
          literals.le_lit 0 100 (omega arith) (omega arith),
        )
        refl

  degraded_proposal-Sound :
      (i : PlannerInput F) (rationale strategy provider model : String) (clock : Datetime)
      → is_blank rationale ≡ false
      → Sound i (degraded_proposal i.symbol rationale strategy provider model clock)
  unfolding degraded_proposal
  degraded_proposal-Sound i rationale strategy provider model clock r = record {
    symbol = refl;
    checked = record {
      confidence =
          rw
            (
              literals.le_lit 0 0 (omega arith) (omega arith),
              literals.le_lit 0 1 (omega arith) (omega arith),
            )
            refl;
      rationale = r;
      risk_pct =
          rw
            (
              literals.le_lit 0 0 (omega arith) (omega arith),
              literals.le_lit 0 100 (omega arith) (omega arith),
            )
            refl;
      volume = refl;
      entry = refl;
      stop_loss = refl;
      take_profit = refl;
    };
    shape = (refl, refl, refl, refl);
  }

  or_hold-Proposes :
      (provider : LlmProvider F) (strategy : String) (i : PlannerInput F) (clock : Datetime)
      (answer : Result (TradeProposal F))
      → is_blank i.symbol ≡ false
      → Returns (Sound i) answer
      → Proposes i (or_hold provider strategy i clock answer)
  unfolding or_hold
  or_hold-Proposes provider strategy i clock (ok p) s h = (p, refl, h)
  or_hold-Proposes provider strategy i clock (raise e) s h = (
    _,
    degraded_proposal-eq-ok i.symbol (degraded e) strategy provider.name provider.model clock s
        (degraded-not-blank e),
    degraded_proposal-Sound i (degraded e) strategy provider.name provider.model clock
        (degraded-not-blank e),
  )

  ask-Sound :
      (b : Builtins F) (provider : LlmProvider F) (request : LlmRequest F) (i : PlannerInput F)
      (clock : Datetime)
      → Returns (Sound i) (ask b provider request i clock)
  unfolding ask
  ask-Sound b provider request i clock =
      Returns-bind (Sound i) (provider.generate request) _ (λ response _.
        Returns-bind (Sound i) (as_dict response.structured) _
          (λ answer _. validate_proposal-Sound b answer i _))

  abbrev request_of : String → String → LlmRequest F
  request_of prompt question = record {
    messages =
        record { role = "system"; content = prompt }
        ∷ record { role = "user"; content = question }
        ∷ [];
    response_format = "json";
    max_tokens = none;
    temperature = fl.true_div (pos 2) 10;
  }

  plan_request-ok :
      (quoted : String → String) (prompt question : String)
      → is_blank prompt ≡ false
      → is_blank question ≡ false
      → plan_request {F = F} quoted prompt question ≡ ok (request_of prompt question)
  unfolding plan_request new_llm_message new_llm_request ◌>>=◌
  plan_request-ok quoted prompt question p q = rw (p, q, literals.fifth) refl

  -- For any input with a symbol and any model, whether it answers an object, another value or
  -- nothing, or raises any exception, `plan` returns a proposal and does not raise, if the system
  -- prompt is not blank and `json.dumps` never gives a blank text; the proposal is sound for the
  -- input, as `validate_proposal` demands of the answer of a model.
  -- The floats 0 to 100 and 0.2 are ordered as they should be (`HasLiterals`).
  pub plan-Proposes :
      (b : Builtins F) (provider : LlmProvider F) (strategy : String) (quoted : String → String)
      (prompt : String) (i : PlannerInput F) (clock : Datetime)
      → is_blank i.symbol ≡ false
      → is_blank prompt ≡ false
      → ((value : Json F) → is_blank (b.dumps value) ≡ false)
      → Proposes i (plan b provider strategy quoted prompt i clock)
  unfolding plan build_user_prompt
  plan-Proposes b provider strategy quoted prompt i clock s p q =
      let request = request_of prompt (build_user_prompt b i) in
      let (proposal, answered, sound) =
        or_hold-Proposes provider strategy i clock (ask b provider request i clock) s
          (ask-Sound b provider request i clock) in
      (
        proposal,
        bind-ok (plan_request quoted prompt (build_user_prompt b i)) _ request
              (plan_request-ok quoted prompt (build_user_prompt b i) p (q _))
            ∙ answered,
        sound,
      )
