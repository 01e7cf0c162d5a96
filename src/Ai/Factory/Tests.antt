-- ===== src/Ai/Factory/Tests.antt =====
-- A provider of the factory on a service that answers the text "{}" in a JSON envelope.
use llm_mt5_agent.Prelude.{
  if◌then◌else◌, if-cases, pos, str_eq, is_blank, String, ◌≡◌, refl, true, ◌⊎◌, inl, none, [], ◌∷◌,
}
use llm_mt5_agent.Python.Bind.{◌>>=◌, Ensures}
use llm_mt5_agent.Python.Errors.{ExceptionClass, Result, ok, raise}
use llm_mt5_agent.Python.Decimal.{Decimal, nan, decimal}
use llm_mt5_agent.Samples.{dec, quoted}
use llm_mt5_agent.Ai.Json.{Json, array, object, no_member, get, items, members, Builtins}
use llm_mt5_agent.Ai.Llm.{LlmRequest, LlmResponse}
use llm_mt5_agent.Ai.Http.{HttpClient, Codec}
use llm_mt5_agent.Ai.Envelope.{
  is_json_error, as_parse_error, decode_body, parse_structured, timed_post, post_json, find_member,
  key_or_error, subscript, first_of, get_of, error_of, usage_of, structured_of,
}
use llm_mt5_agent.Ai.Envelope.Raises.{AnyValue, IsDocumented, IsUnread}
use llm_mt5_agent.Ai.Envelope.Contract.{Meets}
use llm_mt5_agent.Ai.OpenAi.{
  OpenAiProvider, content_text, read_choice, respond, read_envelope, to_response, openai_generate,
}
use llm_mt5_agent.Ai.Factory.Contract.{Misconfigured, create_provider-Meets}
use llm_mt5_agent.Ai.Factory.{ProviderOptions, create_provider}

-- The service answers one choice; what it says is the empty object.
abbrev envelope : Json Decimal
envelope = object (
    members (
      (
        "choices",
        array (
            items (
              object
                (members (("message", object (members (("content", Json.text "{}") ∷ []))) ∷ []))
              ∷ [])),
      )
      ∷ []))

abbrev not_json : Result (Json Decimal)
not_json = raise (record { class = ExceptionClass.other "JSONDecodeError"; message = "" })

-- It reads two texts.
abbrev codec : Codec Decimal
codec = record {
  loads = λ s.
      if str_eq s "envelope"
      then ok envelope
      else if str_eq s "{}"
      then ok (object no_member)
      else not_json;
  decode = λ bytes. ok "envelope";
  repr_bytes = λ bytes. "b''";
  int_float = λ x. ok (pos 0);
  lower = λ s. s;
}

abbrev reads : Builtins Decimal
reads = record {
  float_int = λ n. ok nan;
  str = λ v. "";
  repr = λ v. "";
  upper = λ s. s;
  dumps = λ v. "{}";
  isoformat = λ t. "";
}

abbrev DocumentedError : ExceptionClass → Type 0
DocumentedError c = (is_json_error c ≡ true) ⊎ IsUnread c

abbrev NoneRaised : ExceptionClass → Type 0
NoneRaised c = ⊥

loads_documented : (s : String) → Ensures AnyValue DocumentedError (codec.loads s)
loads_documented s =
    if-cases (str_eq s "envelope") (Ensures AnyValue DocumentedError) (λ _. tt)
      (λ _. if-cases (str_eq s "{}") (Ensures AnyValue DocumentedError) (λ _. tt) (λ _. inl refl))

codec-IsDocumented : IsDocumented decimal codec
codec-IsDocumented = record {
  loads_raises = loads_documented;
  decode_raises = λ bytes. tt;
  int_raises = λ x h. tt;
}

abbrev service : HttpClient Decimal
service call = ok (record { status = 200; body = []; headers = [] })

abbrev options : ProviderOptions Decimal
options = record { model = none; api_key = none; base_url = none; timeout_s = dec 3_000_000 }

abbrev request : LlmRequest Decimal
request = record {
  messages = record { role = "user"; content = "?" } ∷ [];
  response_format = "json";
  max_tokens = none;
  temperature = dec 0;
}

abbrev text_of : Result (LlmResponse Decimal) → String
text_of (ok a) = a.text
text_of (raise e) = "raised"

ollama : OpenAiProvider Decimal
ollama = record {
  provider_name = "ollama";
  base_url = "http://localhost:11434/v1/";
  api_key = none;
  model = "llama3.1";
  timeout_s = dec 3_000_000;
}

answers_text : text_of (openai_generate reads codec service ollama (dec 0) request) ≡ "{}"
unfolding openai_generate post_json timed_post decode_body as_parse_error to_response error_of
    find_member read_envelope read_choice subscript key_or_error first_of get_of get respond
    content_text is_blank usage_of structured_of parse_structured ◌>>=◌ ollama
answers_text = refl

create_provider-Meets_example :
    Ensures
      (Meets codec NoneRaised request)
      Misconfigured
      (create_provider reads codec service (dec 0) quoted "ollama" options)
create_provider-Meets_example =
    create_provider-Meets reads codec codec-IsDocumented (dec 0) request service NoneRaised
      (record { fails = λ call. tt }) quoted "ollama" options
