-- ===== src/Ai/Envelope/Contract.antt =====
-- mt5_agent/ai: what a provider promises the planner.
use llm_mt5_agent.Prelude.{is_blank, String, ◌≡◌, false}
use llm_mt5_agent.Python.Bind.{Ensures}
use llm_mt5_agent.Python.Errors.{ExceptionClass}
use llm_mt5_agent.Python.Float.{Float}
use llm_mt5_agent.Ai.Llm.{LlmRequest, LlmResponse, LlmProvider}
use llm_mt5_agent.Ai.Http.{Codec}
use llm_mt5_agent.Ai.Envelope.Raises.{Known, StructuredAs}

module _ {F : Type 0} ⦃fl : Float F⦄ (b : Codec F) where
  -- The answer is of the provider's own name and model, its text is not blank, and its structured
  -- part is there exactly where JSON was asked for, and is the JSON of the text.
  pub record Answers (name model : String) (r : LlmRequest F) (answer : LlmResponse F)
      : Type 0 where
    pub named : answer.provider ≡ name
    pub modelled : answer.model ≡ model
    pub spoken : is_blank answer.text ≡ false
    pub structured_as : StructuredAs b r.response_format answer.text answer.structured

  -- A provider with a model that meets a request, where the transport may raise exceptions of E.
  pub record Meets (E : ExceptionClass → Type 0) (r : LlmRequest F) (p : LlmProvider F)
      : Type 0 where
    pub has_model : is_blank p.model ≡ false
    pub meets : Ensures (Answers p.name p.model r) (Known E) (p.generate r)
