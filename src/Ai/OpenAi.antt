-- ===== src/Ai/OpenAi.antt =====
-- mt5_agent/ai/openai_compat.py: the provider for services with a `/chat/completions` schema.
pub mod Answering
use llm_mt5_agent.Prelude.{
  ◌==◌, if◌then◌else◌, pos, str_eq, is_blank, String, ◌<>◌, Bool, true, false, ◌&&◌, ◌||◌, Option,
  none, some, List, [], ◌∷◌, ◌++◌, map,
}
use llm_mt5_agent.Python.Bind.{◌>>=◌, ◌>>◌}
use llm_mt5_agent.Python.Errors.{
  llm_configuration_error, llm_provider_error, llm_parse_error, Result, ok, raise,
}
use llm_mt5_agent.Python.Float.{Float, ◌<?◌, lit}
use llm_mt5_agent.Ai.Json.{
  Json, null, integer, number, text, array, object, Items, no_item, item, Members, get, items,
  members, Builtins,
}
use llm_mt5_agent.Ai.Llm.{LlmMessage, LlmRequest, LlmResponse, LlmProvider}
use llm_mt5_agent.Ai.Http.{HttpClient, Codec, llm_exception}
use llm_mt5_agent.Ai.Envelope.{
  is_envelope_error, as_parse_error, post_json, subscript, first_of, get_of, error_of, usage_of,
  structured_of,
}
use Prim.Native.Char.{code}

pub record OpenAiProvider (F : Type 0) : Type 0 where
  pub provider_name : String
  pub base_url : String
  pub api_key : Option String
  pub model : String
  pub timeout_s : F

-- `base_url.rstrip("/")`
unfoldable pub rstrip_slash : String → String
rstrip_slash String.[] = ""
rstrip_slash (String.◌∷◌ c s) =
    let rest = rstrip_slash s in if code c == 0x2f && str_eq rest "" then "" else String.◌∷◌ c rest

abbrev pub raise_configuration_if : Bool → String → Result (Unit {0})
raise_configuration_if true message = raise (llm_exception llm_configuration_error message)
raise_configuration_if false message = ok tt

-- The tests of `__init__`.
unfoldable pub new_openai_provider :
    {F : Type 0} ⦃fl : Float F⦄ → OpenAiProvider F → Result (OpenAiProvider F)
new_openai_provider p = do
  raise_configuration_if (is_blank p.model) (p.provider_name <> ": model must be non-empty")
  raise_configuration_if (p.timeout_s <? lit 1 || lit 300 <? p.timeout_s) "timeout_s must be 1..300"
  ok p

-- What the `try` of `_to_response` reads: the content and `finish`.
pub record Choice (F : Type 0) : Type 0 where
  pub content : Json F
  pub finish : String

-- `if self._api_key`
unfoldable pub authorization : Option String → List (String × String)
authorization none = []
authorization (some key) = if str_eq key "" then [] else ("Authorization", "Bearer " <> key) ∷ []

module _ {F : Type 0} where
  unfoldable pub message_json : LlmMessage → Json F
  message_json m =
      object (members (("role", Json.text m.role) ∷ ("content", Json.text m.content) ∷ []))

  abbrev pub given : String → Option (Json F) → List (String × Json F)
  given key none = []
  given key (some v) = (key, v) ∷ []

  -- `payload` of `generate`, its keys in the order in which they are set
  unfoldable pub openai_payload : String → LlmRequest F → Members F
  openai_payload model r = members (
      ("model", Json.text model)
      ∷ ("messages", array (items (map message_json r.messages)))
      ∷ (given "max_tokens" (elim r.max_tokens [ none ↦ none | some n ↦ some (integer (pos n)) ])
          ++ (("temperature", number r.temperature)
              ∷ given "response_format" (
                  if str_eq r.response_format "json"
                  then some (object (members (("type", Json.text "json_object") ∷ [])))
                  else none))))

  -- The text of a part of a content, if it has one.
  unfoldable pub part_text : Json F → String
  part_text (object entries) = elim (get entries "text" null) [ Json.text s ↦ s | _ ↦ "" ]
  part_text _ = ""

  unfoldable pub joined_parts : Items F → String
  joined_parts no_item = ""
  joined_parts (item v rest) = part_text v <> joined_parts rest

  -- `_flatten_content(content)`
  unfoldable pub flatten_content : Json F → String
  flatten_content (Json.text s) = s
  flatten_content (array parts) = joined_parts parts
  flatten_content _ = ""

  -- `text`, with the fallback where it is no text or blank
  unfoldable pub content_text : Json F → String
  content_text (Json.text s) = if is_blank s then flatten_content (Json.text s) else s
  content_text content = flatten_content content

module _ {F : Type 0} ⦃fl : Float F⦄ (bs : Builtins F) (b : Codec F) where
  -- The body of that `try`.
  unfoldable pub read_choice : Members F → Result (Choice F)
  read_choice data_ = do
    choices ← subscript (object data_) "choices"
    choice ← first_of choices
    message ← subscript choice "message"
    content ← get_of message "content" null
    finish ← get_of choice "finish_reason" (Json.text "")
    ok (record { content = content; finish = bs.str finish })

  -- The rest of `_to_response`.
  unfoldable pub respond :
      OpenAiProvider F → LlmRequest F → F → Members F → Choice F → Result (LlmResponse F)
  respond p r latency data_ choice =
      let s = content_text choice.content in
      if is_blank s
      then raise (llm_exception llm_parse_error (p.provider_name <> " returned empty content."))
      else do
        usage ←
            usage_of b "prompt_tokens" "completion_tokens" "total_tokens" (get data_ "usage" null)
        structured ← structured_of b r.response_format s
        ok (record {
          text = s;
          provider = p.provider_name;
          model = p.model;
          latency_ms = latency;
          usage = usage;
          structured = structured;
          finish_reason = choice.finish;
          raw = data_;
        })

  -- A dictionary that holds no error.
  unfoldable pub read_envelope :
      OpenAiProvider F → LlmRequest F → F → Members F → Result (LlmResponse F)
  read_envelope p r latency data_ = do
    choice ←
        as_parse_error is_envelope_error ("Unexpected " <> (p.provider_name <> " envelope: "))
          (read_choice data_)
    respond p r latency data_ choice

  -- `_to_response(data, request, latency_ms)`
  unfoldable pub to_response : OpenAiProvider F → LlmRequest F → F → Json F → Result (LlmResponse F)
  to_response p r latency (object data_) = elim (error_of data_) [
    | some e ↦ raise (
        llm_exception llm_provider_error
          (p.provider_name <> (" error: " <> bs.str (get e "message" (object e)))))
    | none ↦ read_envelope p r latency data_
  ]
  to_response p r latency _ =
      raise (llm_exception llm_parse_error ("Unexpected " <> (p.provider_name <> " envelope")))

  -- `generate(request)`
  unfoldable pub openai_generate :
      HttpClient F → OpenAiProvider F → F → LlmRequest F → Result (LlmResponse F)
  openai_generate http p latency r = do
    answer ←
        post_json b http
          (record {
            url = rstrip_slash p.base_url <> "/chat/completions";
            headers = authorization p.api_key;
            payload = openai_payload p.model r;
            timeout_s = p.timeout_s;
          })
          p.provider_name
    to_response p r latency answer

  -- The provider as the planner sees it; `latency` is what the stopwatch shows.
  unfoldable pub openai_provider : HttpClient F → F → OpenAiProvider F → LlmProvider F
  openai_provider http latency p = record {
    name = p.provider_name;
    model = p.model;
    generate = openai_generate http p latency;
  }
