-- ===== src/Ai/Gemini/Answering.antt =====
-- mt5_agent/ai/gemini.py: what the provider answers and raises.
use llm_mt5_agent.Prelude.{Bool-cases, Option-cases, is_empty, is_blank, ◌≡◌, refl, inl, inr, false}
use llm_mt5_agent.Python.Bind.{Ensures, Ensures-bind}
use llm_mt5_agent.Python.Errors.{ExceptionClass}
use llm_mt5_agent.Python.Float.{Float}
use llm_mt5_agent.Ai.Json.{
  Json, null, boolean, integer, number, array, object, Items, no_item, item, Members, Builtins,
}
use llm_mt5_agent.Ai.Llm.{LlmRequest}
use llm_mt5_agent.Ai.Http.{HttpClient, Codec}
use llm_mt5_agent.Ai.Envelope.{is_envelope_error, error_of}
use llm_mt5_agent.Ai.Envelope.Raises.{
  Known, from_llm, AnyValue, IsDocumented, IsTransport, as_parse_error-Known, StructuredAs,
  post_json-Known, usage_of-Known, structured_of-As, Caught, subscript-Caught, first_of-Caught,
  get_of-Caught,
}
use llm_mt5_agent.Ai.Envelope.Contract.{Answers, Meets}
use llm_mt5_agent.Ai.Gemini.{
  GeminiProvider, split_contents, to_contents, text_or_error, join_texts, joined_texts, Candidate,
  read_candidate, gemini_respond, gemini_envelope, gemini_response, gemini_generate,
  gemini_provider,
}

module _ {F : Type 0} where
  text_or_error-Caught : (v : Json F) → Ensures AnyValue Caught (text_or_error v)
  unfolding text_or_error
  text_or_error-Caught (Json.text s) = tt
  text_or_error-Caught null = refl
  text_or_error-Caught (boolean v) = refl
  text_or_error-Caught (integer n) = refl
  text_or_error-Caught (number x) = refl
  text_or_error-Caught (array xs) = refl
  text_or_error-Caught (object xs) = refl

  join_texts-Caught : (xs : Items F) → Ensures AnyValue Caught (join_texts xs)
  unfolding join_texts
  join_texts-Caught no_item = tt
  join_texts-Caught (item (object entries) rest) =
      Ensures-bind AnyValue AnyValue Caught _ _ (text_or_error-Caught _) (λ here _.
        Ensures-bind AnyValue AnyValue Caught _ _ (join_texts-Caught rest) (λ later _. tt))
  join_texts-Caught (item null rest) = join_texts-Caught rest
  join_texts-Caught (item (boolean v) rest) = join_texts-Caught rest
  join_texts-Caught (item (integer n) rest) = join_texts-Caught rest
  join_texts-Caught (item (number x) rest) = join_texts-Caught rest
  join_texts-Caught (item (Json.text s) rest) = join_texts-Caught rest
  join_texts-Caught (item (array xs) rest) = join_texts-Caught rest

  joined_texts-Caught : (v : Json F) → Ensures AnyValue Caught (joined_texts v)
  unfolding joined_texts
  joined_texts-Caught (array parts) = join_texts-Caught parts
  joined_texts-Caught (object entries) = tt
  joined_texts-Caught (Json.text s) = tt
  joined_texts-Caught null = refl
  joined_texts-Caught (boolean v) = refl
  joined_texts-Caught (integer n) = refl
  joined_texts-Caught (number x) = refl

module _ {F : Type 0} ⦃fl : Float F⦄ (bs : Builtins F) (b : Codec F) (d : IsDocumented fl b)
    (latency : F) (r : LlmRequest F) (E : ExceptionClass → Type 0) where
  read_candidate-Caught : (data_ : Members F) → Ensures AnyValue Caught (read_candidate bs b data_)
  unfolding read_candidate
  read_candidate-Caught data_ =
      Ensures-bind AnyValue AnyValue Caught _ _ (subscript-Caught _ _) (λ candidates _.
        Ensures-bind AnyValue AnyValue Caught _ _ (first_of-Caught candidates) (λ candidate _.
          Ensures-bind AnyValue AnyValue Caught _ _ (subscript-Caught candidate _) (λ content _.
            Ensures-bind AnyValue AnyValue Caught _ _ (subscript-Caught content _) (λ parts _.
              Ensures-bind AnyValue AnyValue Caught _ _ (joined_texts-Caught parts) (λ s _.
                Ensures-bind AnyValue AnyValue Caught _ _ (get_of-Caught candidate _ _)
                  (λ finish _. tt))))))

  gemini_respond-Known :
      (p : GeminiProvider F) (data_ : Members F) (c : Candidate)
      → Ensures (Answers b "gemini" p.model r) (Known E) (gemini_respond bs b p r latency data_ c)
  unfolding gemini_respond
  gemini_respond-Known p data_ c = elim (Bool-cases (is_blank c.text)) [
    | inl h ↦ rw h (from_llm refl)
    | inr h ↦ rw h (
        Ensures-bind AnyValue (Answers b "gemini" p.model r) (Known E) _ _
          (usage_of-Known b d E _ _ _ _)
          (λ usage _.
            Ensures-bind (StructuredAs b r.response_format c.text) (Answers b "gemini" p.model r)
              (Known E) _ _ (structured_of-As b d E _ _)
              (λ s k. record { named = refl; modelled = refl; spoken = h; structured_as = k })))
  ]

  gemini_response-Known :
      (p : GeminiProvider F) (answer : Json F)
      → Ensures (Answers b "gemini" p.model r) (Known E) (gemini_response bs b p r latency answer)
  unfolding gemini_response gemini_envelope
  gemini_response-Known p (object data_) = elim (Option-cases (error_of data_)) [
    | inl h ↦
        rw (h, Ensures)
          (Ensures-bind AnyValue (Answers b "gemini" p.model r) (Known E) _ _
            (as_parse_error-Known E AnyValue is_envelope_error _ _ (read_candidate-Caught data_))
            (λ c _. gemini_respond-Known p data_ c))
    | inr (e, h) ↦ rw (h, Ensures) (from_llm refl)
  ]
  gemini_response-Known p null = from_llm refl
  gemini_response-Known p (boolean v) = from_llm refl
  gemini_response-Known p (integer n) = from_llm refl
  gemini_response-Known p (number x) = from_llm refl
  gemini_response-Known p (Json.text s) = from_llm refl
  gemini_response-Known p (array xs) = from_llm refl

  to_contents-Known : Ensures AnyValue (Known E) (to_contents r)
  unfolding to_contents
  to_contents-Known = elim (Bool-cases (is_empty (split_contents {F = F} "" r.messages).1)) [
    | inl h ↦ rw h (from_llm refl)
    | inr h ↦ rw h tt
  ]

  pub gemini_provider-Meets :
      (http : HttpClient F) (p : GeminiProvider F)
      → IsTransport E http
      → is_blank p.model ≡ false
      → Meets b E r (gemini_provider bs b http latency p)
  unfolding gemini_provider gemini_generate
  gemini_provider-Meets http p t h = record {
    has_model = h;
    meets =
        Ensures-bind AnyValue (Answers b "gemini" p.model r) (Known E) _ _ to_contents-Known
          (λ split_ _.
            Ensures-bind AnyValue (Answers b "gemini" p.model r) (Known E) _ _
              (post_json-Known b d E http _ "gemini" t)
              (λ answer _. gemini_response-Known p answer));
  }
