-- ===== src/Ai/Envelope.antt =====
-- mt5_agent/ai/shared.py, and how the providers read the JSON that a model's service answers.
pub mod Raises
pub mod Contract
use llm_mt5_agent.Prelude.{
  ltb, leb, if◌then◌else◌, ℤ, pos, str_eq, str_ℕ, String, ◌<>◌, Bool, true, false, ◌||◌, Option,
  none, some, [],
}
use llm_mt5_agent.Python.Bind.{◌>>=◌, ◌>>◌}
use llm_mt5_agent.Python.Errors.{
  ExceptionClass, type_error, timeout_error, llm_provider_error, llm_timeout_error, llm_parse_error,
  Result, ok, raise,
}
use llm_mt5_agent.Python.Float.{Float, ◌≤?◌, lit}
use llm_mt5_agent.Ai.Json.{
  Json, null, boolean, integer, number, array, object, no_item, item, Members, no_member, member,
  get,
}
use llm_mt5_agent.Ai.Llm.{LlmUsage}
use llm_mt5_agent.Ai.Http.{HttpCall, HttpResponse, HttpClient, Codec, llm_exception}

-- `except (UnicodeDecodeError, json.JSONDecodeError)`
abbrev pub is_decode_error : ExceptionClass → Bool
is_decode_error (ExceptionClass.other name) =
    str_eq name "JSONDecodeError" || str_eq name "UnicodeDecodeError"
is_decode_error _ = false

-- `except json.JSONDecodeError`
abbrev pub is_json_error : ExceptionClass → Bool
is_json_error (ExceptionClass.other name) = str_eq name "JSONDecodeError"
is_json_error _ = false

-- `except (KeyError, IndexError, TypeError, AttributeError)`
abbrev pub is_envelope_error : ExceptionClass → Bool
is_envelope_error type_error = true
is_envelope_error (ExceptionClass.other name) =
    str_eq name "KeyError" || str_eq name "IndexError" || str_eq name "AttributeError"
is_envelope_error _ = false

-- An exception of the named classes becomes an LLMParseError.
unfoldable pub as_parse_error :
    {A : Type 0} → (ExceptionClass → Bool) → String → Result A → Result A
as_parse_error caught what (ok a) = ok a
as_parse_error caught what (raise e) =
    if caught e.class then raise (llm_exception llm_parse_error (what <> e.message)) else raise e

unfoldable pub decode_body :
    {F : Type 0} → Codec F → String → String → HttpResponse → Result (Json F)
decode_body b provider url r =
    if ltb r.status 200 || leb 300 r.status
    then raise (llm_exception llm_provider_error ("HTTP " <> (str_ℕ r.status <> (" from " <> url))))
    else as_parse_error is_decode_error ("Invalid JSON from " <> (provider <> ": "))
        (b.decode r.body >>= b.loads)

unfoldable pub parse_structured : {F : Type 0} → Codec F → String → Result (Json F)
parse_structured b s = as_parse_error is_json_error "Response is not valid JSON " (b.loads s)

-- `except TimeoutError`
abbrev pub is_timeout : ExceptionClass → Bool
is_timeout timeout_error = true
is_timeout _ = false

-- The handler of `post_json`.
unfoldable pub timed_post : {A : Type 0} → String → Result A → Result A
timed_post what (ok a) = ok a
timed_post what (raise e) =
    if is_timeout e.class then raise (llm_exception llm_timeout_error what) else raise e

-- `post_json(http, url, headers=..., payload=..., timeout_s=..., provider=...)`, less the latency
unfoldable pub post_json :
    {F : Type 0} ⦃fl : Float F⦄ → Codec F → HttpClient F → HttpCall F → String → Result (Json F)
post_json ⦃fl⦄ b http call provider = do
  response ←
      timed_post (provider <> (" timed out after " <> (fl.str call.timeout_s <> "s"))) (http call)
  decode_body b provider call.url response

abbrev pub named_error : {A : Type 0} → String → String → Result A
named_error name message = raise (record { class = ExceptionClass.other name; message = message })

abbrev type_error_of : {A : Type 0} → String → Result A
type_error_of message = raise (record { class = type_error; message = message })

module _ {F : Type 0} where
  -- `data.get(key)`, `none` where the key is missing
  unfoldable pub find_member : Members F → String → Option (Json F)
  find_member no_member key = none
  find_member (member k v rest) key = if str_eq k key then some v else find_member rest key

  unfoldable pub key_or_error : String → Option (Json F) → Result (Json F)
  key_or_error key (some v) = ok v
  key_or_error key none = named_error "KeyError" key

  -- `value[key]`, for a key that is a text
  unfoldable pub subscript : Json F → String → Result (Json F)
  subscript (object entries) key = key_or_error key (find_member entries key)
  subscript _ key = type_error_of "indices must be integers"

  -- `value[0]`
  unfoldable pub first_of : Json F → Result (Json F)
  first_of (array (item v rest)) = ok v
  first_of (array no_item) = named_error "IndexError" "list index out of range"
  first_of (object entries) = named_error "KeyError" "0"
  first_of (Json.text (String.◌∷◌ c s)) = ok (Json.text (String.◌∷◌ c ""))
  first_of (Json.text String.[]) = named_error "IndexError" "string index out of range"
  first_of _ = type_error_of "object is not subscriptable"

  -- `value.get(key, default)`
  unfoldable pub get_of : Json F → String → Json F → Result (Json F)
  get_of (object entries) key default = ok (get entries key default)
  get_of _ key default = named_error "AttributeError" "object has no attribute 'get'"

-- `data["error"]`, if it is a dictionary
unfoldable pub error_of : {F : Type 0} → Members F → Option (Members F)
error_of data_ = elim (find_member data_ "error") [
  | none ↦ none
  | some v ↦ elim v [ object e ↦ some e | _ ↦ none ]
]

module _ {F : Type 0} ⦃fl : Float F⦄ (b : Codec F) where
  -- `int(value) if isinstance(value, (int, float)) and value >= 0 else None`
  unfoldable pub token_count : Json F → Result (Option ℤ)
  token_count (integer (pos n)) = ok (some (pos n))
  token_count (boolean v) = ok (some (pos (if v then 1 else 0)))
  token_count (number x) = if lit 0 ≤? x then (do n ← b.int_float x; ok (some n)) else ok none
  token_count _ = ok none

  abbrev pub no_usage : LlmUsage
  no_usage = record { prompt_tokens = none; completion_tokens = none; total_tokens = none }

  -- `_usage_of(raw)`, which the providers have with different keys
  unfoldable pub usage_of : String → String → String → Json F → Result LlmUsage
  usage_of prompt completion total (object entries) = do
    p ← token_count (get entries prompt null)
    c ← token_count (get entries completion null)
    t ← token_count (get entries total null)
    ok (record { prompt_tokens = p; completion_tokens = c; total_tokens = t })
  usage_of prompt completion total _ = ok no_usage

  -- `parse_structured(text, ...) if request.response_format == "json" else None`
  unfoldable pub structured_of : String → String → Result (Option (Json F))
  structured_of response_format s =
      if str_eq response_format "json" then (do v ← parse_structured b s; ok (some v)) else ok none
