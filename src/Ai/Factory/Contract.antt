-- ===== src/Ai/Factory/Contract.antt =====
-- mt5_agent/ai/factory.py: what every provider of the factory answers, and what it raises.
use llm_mt5_agent.Prelude.{
  if-cases, str_eq, is_blank, strip, String, ◌≡◌, refl, Bool, true, false, ◌||◌,
}
use llm_mt5_agent.Python.Bind.{◌>>=◌, ◌>>◌, Ensures, Ensures-bind}
use llm_mt5_agent.Python.Errors.{ExceptionClass, llm_configuration_error, Result}
use llm_mt5_agent.Python.Float.{Float}
use llm_mt5_agent.Ai.Json.{Builtins}
use llm_mt5_agent.Ai.Llm.{LlmRequest}
use llm_mt5_agent.Ai.Http.{HttpClient, Codec}
use llm_mt5_agent.Ai.Envelope.Raises.{IsDocumented, IsTransport}
use llm_mt5_agent.Ai.Envelope.Contract.{Meets}
use llm_mt5_agent.Ai.OpenAi.{raise_configuration_if, new_openai_provider}
use llm_mt5_agent.Ai.Gemini.{new_gemini_provider}
use llm_mt5_agent.Ai.OpenAi.Answering.{openai_provider-Meets}
use llm_mt5_agent.Ai.Gemini.Answering.{gemini_provider-Meets}
use llm_mt5_agent.Ai.Factory.{
  ProviderOptions, create_gemini, create_openai, create_named, create_provider,
}

-- Why no provider is made.
abbrev pub Misconfigured : ExceptionClass → Type 0
Misconfigured c = c ≡ llm_configuration_error

configured-Ensures :
    {A : Type 0} (P : A → Type 0) (wrong : Bool) (message : String) (m : Result A)
    → (wrong ≡ false → Ensures P Misconfigured m)
    → Ensures P Misconfigured (raise_configuration_if wrong message >> m)
unfolding ◌>>=◌
configured-Ensures P true message m h = refl
configured-Ensures P false message m h = h refl

module _ {F : Type 0} ⦃fl : Float F⦄ (bs : Builtins F) (b : Codec F) (d : IsDocumented fl b)
    (latency : F) (r : LlmRequest F) (http : HttpClient F) (E : ExceptionClass → Type 0)
    (t : IsTransport E http) where
  create_gemini-Meets :
      (o : ProviderOptions F)
      → Ensures (Meets b E r) Misconfigured (create_gemini bs b http latency o)
  unfolding create_gemini new_gemini_provider
  create_gemini-Meets o =
      Ensures-bind (λ p. is_blank p.model ≡ false) (Meets b E r) Misconfigured _ _
        (configured-Ensures _ _ _ _ (λ _. configured-Ensures _ _ _ _ (λ h. h)))
        (λ p h. gemini_provider-Meets bs b d latency r E http p t h)

  create_openai-Meets :
      (name : String) (o : ProviderOptions F)
      → Ensures (Meets b E r) Misconfigured (create_openai bs b http latency name o)
  unfolding create_openai new_openai_provider
  create_openai-Meets name o = configured-Ensures (Meets b E r) _ _ _ (λ _.
      Ensures-bind (λ p. is_blank p.model ≡ false) (Meets b E r) Misconfigured _ _
        (configured-Ensures _ _ _ _ (λ h. configured-Ensures _ _ _ _ (λ _. h)))
        (λ p h. openai_provider-Meets bs b d latency r E http p t h))

  -- Whatever the configuration says, `create_provider` raises nothing but an LLMConfigurationError,
  -- and a provider that it makes has a model whose name is not blank. Whatever the service answers to
  -- its request, that provider returns a text that is not blank under its own name and model, with the
  -- JSON of the text exactly where JSON was asked for, or it raises an LLMError, the OverflowError of
  -- an infinite number of tokens, the ValueError or the RecursionError of `json.loads`, or what the
  -- transport raised. The hypotheses: the transport fails with an LLMError, a TimeoutError or an
  -- exception of a class E, which may be any; `json.loads` raises a JSONDecodeError, or a ValueError
  -- or RecursionError for too many digits or too deep a text; `decode` raises a JSONDecodeError or a
  -- UnicodeDecodeError; and `int` an OverflowError for a float that is not negative.
  pub create_provider-Meets :
      (repr : String → String) (provider : String) (o : ProviderOptions F)
      → Ensures (Meets b E r) Misconfigured (create_provider bs b http latency repr provider o)
  unfolding create_provider create_named
  create_provider-Meets repr provider o = named_lem (b.lower (strip provider))
    where
      named_lem :
          (name : String)
          → Ensures
              (Meets b E r)
              Misconfigured
              (create_named bs b http latency (repr provider) name o)
      named_lem name =
          if-cases (str_eq name "none" || str_eq name "") (Ensures (Meets b E r) Misconfigured)
            (λ _. refl)
            (λ _.
              if-cases (str_eq name "gemini") (Ensures (Meets b E r) Misconfigured)
                (λ _. create_gemini-Meets o)
                (λ _.
                  if-cases (str_eq name "openai" || str_eq name "deepseek" || str_eq name "ollama")
                    (Ensures (Meets b E r) Misconfigured) (λ _. create_openai-Meets name o)
                    (λ _. refl)))
