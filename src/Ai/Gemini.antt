-- ===== src/Ai/Gemini.antt =====
-- mt5_agent/ai/gemini.py: the provider for Google's `generateContent`.
pub mod Answering
use llm_mt5_agent.Prelude.{
  if◌then◌else◌, is_empty, pos, str_eq, is_blank, String, ◌<>◌, Bool, true, false, none, some, List,
  [], ◌∷◌, ◌++◌,
}
use llm_mt5_agent.Python.Bind.{◌>>=◌, ◌>>◌}
use llm_mt5_agent.Python.Errors.{
  type_error, llm_configuration_error, llm_provider_error, llm_parse_error, Result, ok, raise,
}
use llm_mt5_agent.Python.Float.{Float}
use llm_mt5_agent.Ai.Json.{
  Json, null, integer, number, array, object, Items, no_item, item, Members, get, items, members,
  Builtins,
}
use llm_mt5_agent.Ai.Llm.{LlmMessage, LlmRequest, LlmResponse, LlmProvider}
use llm_mt5_agent.Ai.Http.{HttpClient, Codec, llm_exception}
use llm_mt5_agent.Ai.Envelope.{
  is_envelope_error, as_parse_error, post_json, subscript, first_of, get_of, error_of, usage_of,
  structured_of,
}
use llm_mt5_agent.Ai.OpenAi.{rstrip_slash, raise_configuration_if, given}

pub record GeminiProvider (F : Type 0) : Type 0 where
  pub api_key : String
  pub model : String
  pub timeout_s : F
  pub base_url : String

-- The tests of `__init__`.
unfoldable pub new_gemini_provider : {F : Type 0} → GeminiProvider F → Result (GeminiProvider F)
new_gemini_provider p = do
  raise_configuration_if (str_eq p.api_key "") "gemini: api key is required"
  raise_configuration_if (is_blank p.model) "gemini: model must be non-empty"
  ok p

abbrev pub is_system : LlmMessage → Bool
is_system m = str_eq m.role "system"

module _ {F : Type 0} where
  unfoldable pub parts_json : String → Json F
  parts_json s = array (items (object (members (("text", Json.text s) ∷ [])) ∷ []))

  -- One entry of `contents`.
  unfoldable pub content_json : LlmMessage → Json F
  content_json m = object (
      members (
        ("role", Json.text (if str_eq m.role "assistant" then "model" else "user"))
        ∷ ("parts", parts_json m.content)
        ∷ []))

  -- The loop of `_to_contents`: the system text, and the contents of the other messages.
  unfoldable pub split_contents : String → List LlmMessage → String × List (Json F)
  split_contents system [] = (system, [])
  split_contents system (m ∷ rest) = elim (is_system m) [
    | true ↦ split_contents (system <> m.content) rest
    | false ↦ let (s, contents) = split_contents system rest in (s, content_json m ∷ contents)
  ]

  -- `_to_contents(request)`
  unfoldable pub to_contents : LlmRequest F → Result (String × List (Json F))
  to_contents r =
      let (system, contents) = split_contents "" r.messages in
      if is_empty contents
      then raise (
          llm_exception llm_configuration_error
            "gemini: at least one non-system message is required")
      else ok (system, contents)

  unfoldable pub gemini_config : LlmRequest F → Members F
  gemini_config r = members (
      ("temperature", number r.temperature)
      ∷ (given "maxOutputTokens"
            (elim r.max_tokens [ none ↦ none | some n ↦ some (integer (pos n)) ])
          ++ given "response_mime_type" (
              if str_eq r.response_format "json"
              then some (Json.text "application/json")
              else none)))

  unfoldable pub gemini_payload : LlmRequest F → String → List (Json F) → Members F
  gemini_payload r system contents = members (
      ("contents", array (items contents))
      ∷ (given "system_instruction" (
            if str_eq system ""
            then none
            else some (object (members (("parts", parts_json system) ∷ []))))
          ++ (("generationConfig", object (gemini_config r)) ∷ [])))

  -- What `"".join` demands of a value.
  unfoldable pub text_or_error : Json F → Result String
  text_or_error (Json.text s) = ok s
  text_or_error _ = raise (record { class = type_error; message = "expected str instance" })

  -- `p.get("text", "")` of the parts that are dictionaries, joined
  unfoldable pub join_texts : Items F → Result String
  join_texts no_item = ok ""
  join_texts (item (object entries) rest) = do
    here ← text_or_error (get entries "text" (Json.text ""))
    later ← join_texts rest
    ok (here <> later)
  join_texts (item _ rest) = join_texts rest

  -- `"".join(p.get("text", "") for p in parts if isinstance(p, dict))`: the keys of a dictionary and
  -- the characters of a text are no dictionaries.
  unfoldable pub joined_texts : Json F → Result String
  joined_texts (array parts) = join_texts parts
  joined_texts (object entries) = ok ""
  joined_texts (Json.text s) = ok ""
  joined_texts _ = raise (record { class = type_error; message = "object is not iterable" })

-- `text` and `finish`
pub record Candidate : Type 0 where
  pub text : String
  pub finish : String

module _ {F : Type 0} ⦃fl : Float F⦄ (bs : Builtins F) (b : Codec F) where
  -- The body of the `try` of `_to_response`.
  unfoldable pub read_candidate : Members F → Result Candidate
  read_candidate data_ = do
    candidates ← subscript (object data_) "candidates"
    candidate ← first_of candidates
    content ← subscript candidate "content"
    parts ← subscript content "parts"
    s ← joined_texts parts
    finish ← get_of candidate "finishReason" (Json.text "")
    ok (record { text = s; finish = bs.str finish })

  -- The rest of `_to_response`.
  unfoldable pub gemini_respond :
      GeminiProvider F → LlmRequest F → F → Members F → Candidate → Result (LlmResponse F)
  gemini_respond p r latency data_ c =
      if is_blank c.text
      then raise (llm_exception llm_parse_error "gemini returned empty content.")
      else do
        usage ←
            usage_of b "promptTokenCount" "candidatesTokenCount" "totalTokenCount"
              (get data_ "usageMetadata" null)
        structured ← structured_of b r.response_format c.text
        ok (record {
          text = c.text;
          provider = "gemini";
          model = p.model;
          latency_ms = latency;
          usage = usage;
          structured = structured;
          finish_reason = c.finish;
          raw = data_;
        })

  unfoldable pub gemini_envelope :
      GeminiProvider F → LlmRequest F → F → Members F → Result (LlmResponse F)
  gemini_envelope p r latency data_ = do
    candidate ←
        as_parse_error is_envelope_error "Unexpected gemini envelope: " (read_candidate data_)
    gemini_respond p r latency data_ candidate

  -- `_to_response(data, request, latency_ms)`
  unfoldable pub gemini_response :
      GeminiProvider F → LlmRequest F → F → Json F → Result (LlmResponse F)
  gemini_response p r latency (object data_) = elim (error_of data_) [
    | some e ↦
        raise (
          llm_exception llm_provider_error
            ("gemini error: " <> bs.str (get e "message" (object e))))
    | none ↦ gemini_envelope p r latency data_
  ]
  gemini_response p r latency _ =
      raise (llm_exception llm_parse_error "Unexpected gemini envelope.")

  -- `generate(request)`
  unfoldable pub gemini_generate :
      HttpClient F → GeminiProvider F → F → LlmRequest F → Result (LlmResponse F)
  gemini_generate http p latency r = do
    split_ ← to_contents r
    answer ←
        post_json b http
          (record {
            url = rstrip_slash p.base_url <> ("/models/" <> (p.model <> ":generateContent"));
            headers = ("x-goog-api-key", p.api_key) ∷ [];
            payload = gemini_payload r split_.0 split_.1;
            timeout_s = p.timeout_s;
          })
          "gemini"
    gemini_response p r latency answer

  -- The provider as the planner sees it.
  unfoldable pub gemini_provider : HttpClient F → F → GeminiProvider F → LlmProvider F
  gemini_provider http latency p = record {
    name = "gemini";
    model = p.model;
    generate = gemini_generate http p latency;
  }
