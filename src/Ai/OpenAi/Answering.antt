-- ===== src/Ai/OpenAi/Answering.antt =====
-- mt5_agent/ai/openai_compat.py: what the provider answers and raises.
use llm_mt5_agent.Prelude.{Bool-cases, Option-cases, is_blank, ◌≡◌, refl, inl, inr, false}
use llm_mt5_agent.Python.Bind.{Ensures, Ensures-bind}
use llm_mt5_agent.Python.Errors.{ExceptionClass}
use llm_mt5_agent.Python.Float.{Float}
use llm_mt5_agent.Ai.Json.{Json, null, boolean, integer, number, array, object, Members, Builtins}
use llm_mt5_agent.Ai.Llm.{LlmRequest}
use llm_mt5_agent.Ai.Http.{HttpClient, Codec}
use llm_mt5_agent.Ai.Envelope.{is_envelope_error, error_of}
use llm_mt5_agent.Ai.Envelope.Raises.{
  Known, from_llm, AnyValue, IsDocumented, IsTransport, as_parse_error-Known, StructuredAs,
  post_json-Known, usage_of-Known, structured_of-As, Caught, subscript-Caught, first_of-Caught,
  get_of-Caught,
}
use llm_mt5_agent.Ai.Envelope.Contract.{Answers, Meets}
use llm_mt5_agent.Ai.OpenAi.{
  OpenAiProvider, Choice, content_text, read_choice, respond, read_envelope, to_response,
  openai_generate, openai_provider,
}

module _ {F : Type 0} ⦃fl : Float F⦄ (bs : Builtins F) (b : Codec F) (d : IsDocumented fl b)
    (latency : F) (r : LlmRequest F) (E : ExceptionClass → Type 0) where
  read_choice-Caught : (data_ : Members F) → Ensures AnyValue Caught (read_choice bs b data_)
  unfolding read_choice
  read_choice-Caught data_ =
      Ensures-bind AnyValue AnyValue Caught _ _ (subscript-Caught _ _) (λ choices _.
        Ensures-bind AnyValue AnyValue Caught _ _ (first_of-Caught choices) (λ choice _.
          Ensures-bind AnyValue AnyValue Caught _ _ (subscript-Caught choice _) (λ message _.
            Ensures-bind AnyValue AnyValue Caught _ _ (get_of-Caught message _ _) (λ content _.
              Ensures-bind AnyValue AnyValue Caught _ _ (get_of-Caught choice _ _)
                (λ finish _. tt)))))

  respond-Known :
      (p : OpenAiProvider F) (data_ : Members F) (choice : Choice F)
      → Ensures
          (Answers b p.provider_name p.model r)
          (Known E)
          (respond bs b p r latency data_ choice)
  unfolding respond
  respond-Known p data_ choice = elim (Bool-cases (is_blank (content_text choice.content))) [
    | inl h ↦ rw h (from_llm refl)
    | inr h ↦ rw h (
        Ensures-bind AnyValue (Answers b p.provider_name p.model r) (Known E) _ _
          (usage_of-Known b d E _ _ _ _)
          (λ usage _.
            Ensures-bind (StructuredAs b r.response_format (content_text choice.content))
              (Answers b p.provider_name p.model r) (Known E) _ _ (structured_of-As b d E _ _)
              (λ s k. record { named = refl; modelled = refl; spoken = h; structured_as = k })))
  ]

  read_envelope-Known :
      (p : OpenAiProvider F) (data_ : Members F)
      → Ensures
          (Answers b p.provider_name p.model r)
          (Known E)
          (read_envelope bs b p r latency data_)
  unfolding read_envelope
  read_envelope-Known p data_ =
      Ensures-bind AnyValue (Answers b p.provider_name p.model r) (Known E) _ _
        (as_parse_error-Known E AnyValue is_envelope_error _ _ (read_choice-Caught data_))
        (λ choice _. respond-Known p data_ choice)

  to_response-Known :
      (p : OpenAiProvider F) (answer : Json F)
      → Ensures
          (Answers b p.provider_name p.model r)
          (Known E)
          (to_response bs b p r latency answer)
  unfolding to_response
  to_response-Known p (object data_) = elim (Option-cases (error_of data_)) [
    | inl h ↦ rw (h, Ensures) (read_envelope-Known p data_)
    | inr (e, h) ↦ rw (h, Ensures) (from_llm refl)
  ]
  to_response-Known p null = from_llm refl
  to_response-Known p (boolean v) = from_llm refl
  to_response-Known p (integer n) = from_llm refl
  to_response-Known p (number x) = from_llm refl
  to_response-Known p (Json.text s) = from_llm refl
  to_response-Known p (array xs) = from_llm refl

  pub openai_provider-Meets :
      (http : HttpClient F) (p : OpenAiProvider F)
      → IsTransport E http
      → is_blank p.model ≡ false
      → Meets b E r (openai_provider bs b http latency p)
  unfolding openai_provider openai_generate
  openai_provider-Meets http p t h = record {
    has_model = h;
    meets =
        Ensures-bind AnyValue (Answers b p.provider_name p.model r) (Known E) _ _
          (post_json-Known b d E http _ p.provider_name t) (λ answer _. to_response-Known p answer);
  }
