-- ===== src/Ai/Factory.antt =====
-- mt5_agent/ai/factory.py: which provider the configuration names.
pub mod Contract
mod Tests
use llm_mt5_agent.Prelude.{
  if◌then◌else◌, str_eq, is_blank, strip, String, ◌<>◌, ◌&&◌, ◌||◌, Option, none, some,
}
use llm_mt5_agent.Python.Bind.{◌>>=◌, ◌>>◌}
use llm_mt5_agent.Python.Errors.{llm_configuration_error, Result, ok, raise}
use llm_mt5_agent.Python.Float.{Float}
use llm_mt5_agent.Ai.Json.{Builtins}
use llm_mt5_agent.Ai.Llm.{LlmProvider}
use llm_mt5_agent.Ai.Http.{HttpClient, Codec, llm_exception}
use llm_mt5_agent.Ai.OpenAi.{raise_configuration_if, new_openai_provider, openai_provider}
use llm_mt5_agent.Ai.Gemini.{new_gemini_provider, gemini_provider}

-- `_DEFAULT_MODELS.get(name, "")`
unfoldable pub default_model : String → String
default_model name =
    if str_eq name "openai"
    then "gpt-4o-mini"
    else if str_eq name "deepseek"
    then "deepseek-chat"
    else if str_eq name "gemini"
    then "gemini-2.0-flash"
    else if str_eq name "ollama"
    then "llama3.1"
    else ""

-- `_DEFAULT_BASE_URLS[name]`, for the names that it has
unfoldable pub default_base_url : String → String
default_base_url name =
    if str_eq name "openai"
    then "https://api.openai.com/v1"
    else if str_eq name "deepseek"
    then "https://api.deepseek.com"
    else "http://localhost:11434/v1"

-- `value or default`, for a text or None
unfoldable pub or_text : Option String → String → String
or_text none default = default
or_text (some s) default = if str_eq s "" then default else s

-- The arguments of `create_provider` but the provider.
pub record ProviderOptions (F : Type 0) : Type 0 where
  pub model : Option String
  pub api_key : Option String
  pub base_url : Option String
  pub timeout_s : F

module _ {F : Type 0} ⦃fl : Float F⦄ (bs : Builtins F) (b : Codec F) (http : HttpClient F)
    (latency : F) where
  unfoldable pub create_gemini : ProviderOptions F → Result (LlmProvider F)
  create_gemini o = do
    p ← new_gemini_provider (record {
      api_key = or_text o.api_key "";
      model = strip (or_text o.model (default_model "gemini"));
      timeout_s = o.timeout_s;
      base_url = or_text o.base_url "https://generativelanguage.googleapis.com/v1beta";
    })
    ok (gemini_provider bs b http latency p)

  unfoldable pub create_openai : String → ProviderOptions F → Result (LlmProvider F)
  create_openai name o = do
    raise_configuration_if
        ((str_eq name "openai" || str_eq name "deepseek") && is_blank (or_text o.api_key ""))
        (name <> ": api key is required")
    p ← new_openai_provider (record {
      provider_name = name;
      base_url = or_text o.base_url (default_base_url name);
      api_key = o.api_key;
      model = strip (or_text o.model (default_model name));
      timeout_s = o.timeout_s;
    })
    ok (openai_provider bs b http latency p)

  -- `create_provider(provider, ...)` for the name as it is compared; `quoted` is the `repr` of the
  -- argument
  unfoldable pub create_named : String → String → ProviderOptions F → Result (LlmProvider F)
  create_named quoted name o =
      if str_eq name "none" || str_eq name ""
      then raise (
          llm_exception llm_configuration_error (
            "LLM provider is 'none'. Set MT5_AGENT_LLM_PROVIDER to one of: "
            <> "openai, deepseek, gemini, ollama."))
      else if str_eq name "gemini"
      then create_gemini o
      else if str_eq name "openai" || str_eq name "deepseek" || str_eq name "ollama"
      then create_openai name o
      else raise (
          llm_exception llm_configuration_error (
            "Unknown LLM provider: "
            <> (quoted <> ". Supported: none, openai, deepseek, gemini, ollama.")))

  -- `create_provider(provider, model=..., api_key=..., base_url=..., timeout_s=..., http=...)`
  unfoldable pub create_provider :
      (String → String) → String → ProviderOptions F → Result (LlmProvider F)
  create_provider repr provider o = create_named (repr provider) (b.lower (strip provider)) o
