-- ===== src/Ai/Llm.antt =====
-- mt5_agent/ai/models.py and mt5_agent/ai/provider.py
use llm_mt5_agent.Prelude.{
  ℕ, ℤ, String, str_eq, is_blank, Bool, not, ◌&&◌, ◌||◌, Option, none, some, List, is_empty, ◌<>◌,
  ltb, false,
}
use llm_mt5_agent.Python.Errors.{Result, ok, raise_if}
use llm_mt5_agent.Python.Bind.{◌>>◌}
use llm_mt5_agent.Python.Float.{Float, ◌≤?◌, lit}
use llm_mt5_agent.Ai.Json.{Json, Members}

pub record LlmMessage : Type 0 where
  pub role : String
  pub content : String

unfoldable pub new_llm_message : (String → String) → LlmMessage → Result LlmMessage
new_llm_message repr m = do
  raise_if (not (str_eq m.role "system" || str_eq m.role "user" || str_eq m.role "assistant"))
      ("invalid role: " <> repr m.role)
  raise_if (is_blank m.content) "content must be non-empty"
  ok m

pub record LlmRequest (F : Type 0) : Type 0 where
  pub messages : List LlmMessage
  pub response_format : String
  pub max_tokens : Option ℕ
  pub temperature : F

-- `max_tokens is not None and max_tokens < 1`
abbrev pub too_few : Option ℕ → Bool
too_few none = false
too_few (some n) = ltb n 1

unfoldable pub new_llm_request : {F : Type 0} ⦃fl : Float F⦄ → LlmRequest F → Result (LlmRequest F)
new_llm_request r = do
  raise_if (is_empty r.messages) "at least one message is required"
  raise_if (not (str_eq r.response_format "text" || str_eq r.response_format "json"))
      "response_format must be 'text' or 'json'"
  raise_if (too_few r.max_tokens) "max_tokens must be >= 1"
  raise_if (not (lit 0 ≤? r.temperature && r.temperature ≤? lit 2)) "temperature must be 0..2"
  ok r

-- `LLMUsage`
pub record LlmUsage : Type 0 where
  pub prompt_tokens : Option ℤ
  pub completion_tokens : Option ℤ
  pub total_tokens : Option ℤ

-- `LLMResponse`; `structured` is `none` where no JSON was asked for.
pub record LlmResponse (F : Type 0) : Type 0 where
  pub text : String
  pub provider : String
  pub model : String
  pub latency_ms : F
  pub usage : LlmUsage
  pub structured : Option (Json F)
  pub finish_reason : String
  pub raw : Members F

-- `LLMProvider`: its request may raise.
pub record LlmProvider (F : Type 0) : Type 0 where
  pub name : String
  pub model : String
  pub generate : LlmRequest F → Result (LlmResponse F)
