-- ===== src/Python/Errors.antt =====
-- Exceptions as values. The classes are those that domain/errors.py and ai/errors.py declare and
-- those of Python that a handler of the program names; `other` is any further class by its name.
use llm_mt5_agent.Prelude.{◌≡◌, String, Bool, true, false}

pub data ExceptionClass : Type 0 where
  value_error type_error timeout_error : ExceptionClass
  os_error : String → ExceptionClass
  mt5_error mt5_not_available_error mt5_connection_error mt5_login_error : ExceptionClass
  mt5_not_connected_error mt5_data_error mt5_market_data_error : ExceptionClass
  mt5_symbol_not_found_error : ExceptionClass
  llm_error llm_configuration_error llm_provider_error llm_timeout_error : ExceptionClass
  llm_parse_error : ExceptionClass
  other : String → ExceptionClass

pub record Exception : Type 0 where
  pub class : ExceptionClass
  pub message : String

-- `type(exc).__name__`; `os_error` carries the name of `OSError` or of its subclass.
unfoldable pub class_name : ExceptionClass → String
class_name value_error = "ValueError"
class_name type_error = "TypeError"
class_name timeout_error = "TimeoutError"
class_name (os_error name) = name
class_name mt5_error = "MT5Error"
class_name mt5_not_available_error = "MT5NotAvailableError"
class_name mt5_connection_error = "MT5ConnectionError"
class_name mt5_login_error = "MT5LoginError"
class_name mt5_not_connected_error = "MT5NotConnectedError"
class_name mt5_data_error = "MT5DataError"
class_name mt5_market_data_error = "MT5MarketDataError"
class_name mt5_symbol_not_found_error = "MT5SymbolNotFoundError"
class_name llm_error = "LLMError"
class_name llm_configuration_error = "LLMConfigurationError"
class_name llm_provider_error = "LLMProviderError"
class_name llm_timeout_error = "LLMTimeoutError"
class_name llm_parse_error = "LLMParseError"
class_name (other name) = name

-- `isinstance(exc, MT5Error)`
abbrev pub is_mt5_error : ExceptionClass → Bool
is_mt5_error mt5_error = true
is_mt5_error mt5_not_available_error = true
is_mt5_error mt5_connection_error = true
is_mt5_error mt5_login_error = true
is_mt5_error mt5_not_connected_error = true
is_mt5_error mt5_data_error = true
is_mt5_error mt5_market_data_error = true
is_mt5_error mt5_symbol_not_found_error = true
is_mt5_error _ = false

-- `isinstance(exc, LLMError)`
abbrev pub is_llm_error : ExceptionClass → Bool
is_llm_error llm_error = true
is_llm_error llm_configuration_error = true
is_llm_error llm_provider_error = true
is_llm_error llm_timeout_error = true
is_llm_error llm_parse_error = true
is_llm_error _ = false

-- `isinstance(exc, (TimeoutError, OSError))`
abbrev pub is_os_error : ExceptionClass → Bool
is_os_error timeout_error = true
is_os_error (os_error _) = true
is_os_error _ = false

-- `except (TypeError, ValueError)`
abbrev pub is_conversion_error : ExceptionClass → Bool
is_conversion_error value_error = true
is_conversion_error type_error = true
is_conversion_error _ = false

-- What a call returns or raises.
pub data Result {ℓ} (A : Type ℓ) : Type ℓ where
  ok : A → Result A
  raise : Exception → Result A

pub ok-inj : {A : Type 0} {a b : A} → ok a ≡ ok b → a ≡ b
ok-inj h = cc

pub ok-raise : {A : Type 0} {e : Exception} {a : A} → raise e ≡ ok a → ⊥
ok-raise h = cc

-- Two statements in sequence: an exception of the first skips the second.
infixl 5 ◌>>=◌ ◌>>◌
abbrev pub ◌>>=◌ : {A B : Type 0} → Result A → (A → Result B) → Result B
raise problem >>= next = raise problem
ok value >>= next = next value

abbrev pub ◌>>◌ : {B : Type 0} → Result (Unit {0}) → Result B → Result B
first >> second = first >>= λ _. second

-- `if condition: raise ValueError(message)`
abbrev pub raise_if : Bool → String → Result (Unit {0})
raise_if true text = raise (record { class = value_error; message = text })
raise_if false text = ok tt
