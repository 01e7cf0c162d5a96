-- ===== src/Ai/Planner.antt =====
-- mt5_agent/ai/planner.py: `LLMPlanner.plan`, which degrades to HOLD.
pub mod Total
use llm_mt5_agent.Prelude.{pos, String, ◌<>◌, Option, none, some, [], ◌∷◌, if◌then◌else◌}
use llm_mt5_agent.Python.Errors.{Exception, Result, ok, raise, class_name, is_llm_error}
use llm_mt5_agent.Python.Bind.{◌>>=◌}
use llm_mt5_agent.Python.Float.{Float, lit, Datetime}
use llm_mt5_agent.Domain.Planning.{hold, PlannerInput, TradeProposal, new_trade_proposal}
use llm_mt5_agent.Ai.Llm.{new_llm_message, LlmRequest, new_llm_request, LlmProvider}
use llm_mt5_agent.Ai.Json.{Json, object, Members, Builtins}
use llm_mt5_agent.Ai.Prompt.{build_user_prompt}
use llm_mt5_agent.Ai.Answer.{value_error_of, validate_proposal}

-- The rationale of the proposal that replaces a failed answer.
unfoldable pub degraded : Exception → String
degraded e =
    if is_llm_error e.class
    then "Planner degraded to HOLD (" <> (e.message <> ")")
    else "Planner degraded to HOLD (" <> (class_name e.class <> (": " <> (e.message <> ")")))

module _ {F : Type 0} ⦃fl : Float F⦄ where
  -- `isinstance(data, dict)`
  unfoldable pub as_dict : Option (Json F) → Result (Members F)
  as_dict (some (object data_)) = ok data_
  as_dict _ = raise (value_error_of "LLM did not return a JSON object")

  -- The body of the `try` of `LLMPlanner.plan`.
  unfoldable pub ask :
      Builtins F
      → LlmProvider F
      → LlmRequest F
      → PlannerInput F
      → Datetime
      → Result (TradeProposal F)
  ask b provider request i clock = do
    response ← provider.generate request
    data_ ← as_dict response.structured
    validate_proposal b data_ i (record {
      provider = response.provider;
      model = response.model;
      latency_ms = response.latency_ms;
      clock = clock;
    })

  unfoldable pub degraded_proposal :
      String → String → String → String → String → Datetime → TradeProposal F
  degraded_proposal symbol rationale strategy provider model clock = record {
    action = hold;
    symbol = symbol;
    confidence = lit 0;
    rationale = rationale;
    strategy = strategy;
    setup_id = "";
    entry = none;
    stop_loss = none;
    take_profit = none;
    risk_pct = lit 0;
    volume = none;
    provider = provider;
    model = model;
    latency_ms = lit 0;
    created_at = clock;
  }

  -- `except Exception`: an answer that fails becomes a HOLD.
  unfoldable pub or_hold :
      LlmProvider F
      → String
      → PlannerInput F
      → Datetime
      → Result (TradeProposal F)
      → Result (TradeProposal F)
  or_hold provider strategy i clock (ok p) = ok p
  or_hold provider strategy i clock (raise e) =
      new_trade_proposal
        (degraded_proposal i.symbol (degraded e) strategy provider.name provider.model clock)

  -- The request of `plan`; `quoted` is `repr`.
  unfoldable pub plan_request : (String → String) → String → String → Result (LlmRequest F)
  plan_request quoted prompt question = do
    system ← new_llm_message quoted (record { role = "system"; content = prompt })
    user ← new_llm_message quoted (record { role = "user"; content = question })
    new_llm_request (record {
      messages = system ∷ user ∷ [];
      response_format = "json";
      max_tokens = none;
      temperature = fl.true_div (pos 2) 10;
    })

  -- `self.plan(planner_input)`; `prompt` is `SYSTEM_PROMPT`.
  unfoldable pub plan :
      Builtins F
      → LlmProvider F
      → String
      → (String → String)
      → String
      → PlannerInput F
      → Datetime
      → Result (TradeProposal F)
  plan b provider strategy quoted prompt i clock = do
    request ← plan_request quoted prompt (build_user_prompt b i)
    or_hold provider strategy i clock (ask b provider request i clock)

  -- `hold_proposal(planner_input, rationale)`, which only the agent calls
  unfoldable pub hold_proposal : PlannerInput F → String → Datetime → Result (TradeProposal F)
  hold_proposal i rationale clock =
      new_trade_proposal (degraded_proposal i.symbol rationale i.signal.strategy "" "" clock)
