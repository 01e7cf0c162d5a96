-- ===== src/Ai/Http.antt =====
-- mt5_agent/ai/http.py: the transport. What `urllib` does with a request is an argument.
use llm_mt5_agent.Prelude.{
  if◌then◌else◌, take, ℤ, str_eq, occurs_in, str_ℕ, ℕ, String, ◌<>◌, Option, none, some, List, [],
  ◌∷◌,
}
use llm_mt5_agent.Python.Errors.{
  ExceptionClass, llm_provider_error, llm_timeout_error, Exception, Result, ok, raise,
}
use llm_mt5_agent.Python.Float.{Float}
use llm_mt5_agent.Ai.Json.{Json, Members}

-- A POST: the arguments of `HttpClient.post`.
pub record HttpCall (F : Type 0) : Type 0 where
  pub url : String
  pub headers : List (String × String)
  pub payload : Members F
  pub timeout_s : F

-- `HttpResponse`; a body is its bytes.
pub record HttpResponse : Type 0 where
  pub status : ℕ
  pub body : List ℕ
  pub headers : List (String × String)

-- `HttpClient`
abbrev pub HttpClient : Type 0 → Type 0
HttpClient F = HttpCall F → Result HttpResponse

-- What the program uses of `json`, of `bytes` and of the conversions of numbers. `loads` raises a
-- `JSONDecodeError` for a text that is no JSON, `decode` a `UnicodeDecodeError`, `int_float` is
-- `int(x)` of a float.
pub record Codec (F : Type 0) : Type 0 where
  pub loads : String → Result (Json F)
  pub decode : List ℕ → Result String
  pub repr_bytes : List ℕ → String
  pub int_float : F → Result ℤ
  pub lower : String → String

-- What `urlopen` and the reading of its response end in. An `HTTPError` has a code and a body, which
-- may not be readable; a `URLError` a reason; `crashed` is any exception that is no `OSError`.
pub data Transport : Type 0 where
  answered : HttpResponse → Transport
  timed_out : Transport
  http_error : ℕ → Option (List ℕ) → Transport
  url_error : String → Transport
  os_failure : String → Transport
  crashed : Exception → Transport

abbrev pub llm_exception : ExceptionClass → String → Exception
llm_exception class message = record { class = class; message = message }

-- `{"Content-Type": "application/json", **headers}`
unfoldable pub set_header : List (String × String) → String × String → List (String × String)
set_header [] h = h ∷ []
set_header ((k, v) ∷ rest) h =
    let later = set_header rest h in if str_eq k h.0 then (k, h.1) ∷ rest else (k, v) ∷ later

unfoldable pub set_headers :
    List (String × String) → List (String × String) → List (String × String)
set_headers base [] = base
set_headers base (h ∷ rest) = set_headers (set_header base h) rest

module _ {F : Type 0} ⦃fl : Float F⦄ (b : Codec F) where
  -- The handlers of `UrllibHttpClient.post`.
  unfoldable pub post_outcome : HttpCall F → Transport → Result HttpResponse
  post_outcome call (answered r) = ok r
  post_outcome call timed_out = raise (
      llm_exception llm_timeout_error
        ("HTTP timeout after " <> (fl.str call.timeout_s <> ("s: " <> call.url))))
  post_outcome call (http_error status body) = raise (
      llm_exception llm_provider_error (
        "HTTP "
        <> (str_ℕ status
            <> (" from "
                <> (call.url
                    <> (": " <> b.repr_bytes (take 500 (elim body [ none ↦ [] | some x ↦ x ]))))))))
  post_outcome call (url_error reason) =
      if occurs_in "timed out" (b.lower reason)
      then raise (
          llm_exception llm_timeout_error
            ("HTTP timeout: " <> (call.url <> (" (" <> (reason <> ")")))))
      else raise (
          llm_exception llm_provider_error
            ("HTTP transport error for " <> (call.url <> (": " <> reason))))
  post_outcome call (os_failure reason) = raise (
      llm_exception llm_provider_error
        ("HTTP transport error for " <> (call.url <> (": " <> reason))))
  post_outcome call (crashed e) = raise e

  -- `UrllibHttpClient().post(url, headers=..., payload=..., timeout_s=...)`
  unfoldable pub urllib_client : (HttpCall F → Transport) → HttpClient F
  urllib_client urlopen call = post_outcome call (
      urlopen (record call {
        headers = set_headers (("Content-Type", "application/json") ∷ []) call.headers;
      }))
