-- ===== src/Ai/Envelope/Raises.antt =====
-- mt5_agent/ai: the exceptions that a provider lets through, whatever its service answers.
use llm_mt5_agent.Prelude.{
  ltb, leb, Bool-cases, ℤ, pos, str_eq, ℕ, String, ◌≡◌, refl, ap, ◌⊎◌, inl, inr, Bool, true, false,
  ◌||◌, Option, none, some, List,
}
use llm_mt5_agent.Python.Bind.{◌>>=◌, Ensures, Ensures-bind, Ensures-map}
use llm_mt5_agent.Python.Errors.{
  ExceptionClass, value_error, timeout_error, is_llm_error, Result, ok, raise,
}
use llm_mt5_agent.Python.Float.{Float}
use llm_mt5_agent.Ai.Json.{Json, null, boolean, integer, number, array, object, no_item, item}
use llm_mt5_agent.Ai.Http.{HttpCall, HttpResponse, HttpClient, Codec}
use llm_mt5_agent.Ai.Envelope.{
  is_decode_error, is_json_error, is_envelope_error, as_parse_error, decode_body, parse_structured,
  is_timeout, timed_post, post_json, key_or_error, subscript, first_of, get_of, token_count,
  usage_of, structured_of,
}

-- What `json.loads` raises that is no JSONDecodeError: the ValueError of an integer with too many
-- digits, and the RecursionError of a text that is nested too deep.
abbrev pub IsUnread : ExceptionClass → Type 0
IsUnread c = (c ≡ value_error) ⊎ (c ≡ ExceptionClass.other "RecursionError")

-- What a provider may let through: an LLMError, the OverflowError of `int(value)` for an infinite
-- number of tokens, those of `json.loads`, which no handler names, and what the transport raises.
pub data Known (E : ExceptionClass → Type 0) (c : ExceptionClass) : Type 0 where
  from_llm : is_llm_error c ≡ true → Known E c
  overflowed : c ≡ ExceptionClass.other "OverflowError" → Known E c
  unread : IsUnread c → Known E c
  from_transport : E c → Known E c

-- An LLMError, or a TimeoutError, which `post_json` turns into one, or another exception.
abbrev pub FromClient : (ExceptionClass → Type 0) → ExceptionClass → Type 0
FromClient E c = (is_llm_error c ≡ true) ⊎ ((c ≡ timeout_error) ⊎ E c)

abbrev pub AnyValue : {A : Type 0} → A → Type 0
AnyValue a = Unit

-- What the documentation of Python says of the functions that the providers call: which exceptions
-- they raise for a text or bytes that they cannot read, and for an infinite float.
pub record IsDocumented {F : Type 0} (fl : Float F) (b : Codec F) : Type 0 where
  pub loads_raises :
      (s : String) → Ensures AnyValue (λ c. (is_json_error c ≡ true) ⊎ IsUnread c) (b.loads s)
  pub decode_raises :
      (bytes : List ℕ) → Ensures AnyValue (λ c. is_decode_error c ≡ true) (b.decode bytes)
  pub int_raises :
      (x : F)
      → fl.le (fl.of_int (pos 0)) x ≡ true
      → Ensures AnyValue (λ c. c ≡ ExceptionClass.other "OverflowError") (b.int_float x)

-- A transport that fails with an LLMError, a TimeoutError or an exception of a class E.
pub record IsTransport {F : Type 0} (E : ExceptionClass → Type 0) (http : HttpClient F)
    : Type 0 where
  pub fails : (call : HttpCall F) → Ensures AnyValue (FromClient E) (http call)

json_is_decode : (c : ExceptionClass) → is_json_error c ≡ true → is_decode_error c ≡ true
json_is_decode (ExceptionClass.other name) h = rw h refl
json_is_decode value_error h = cc
json_is_decode _ h = h

loads_or_decode :
    (c : ExceptionClass)
    → (is_json_error c ≡ true) ⊎ IsUnread c
    → (is_decode_error c ≡ true) ⊎ IsUnread c
loads_or_decode c (inl h) = inl (json_is_decode c h)
loads_or_decode c (inr u) = inr u

pub as_parse_error-Known :
    {A : Type 0} (E : ExceptionClass → Type 0) (P : A → Type 0) (caught : ExceptionClass → Bool)
    (what : String) (m : Result A)
    → Ensures P (λ c. caught c ≡ true) m
    → Ensures P (Known E) (as_parse_error caught what m)
unfolding as_parse_error
as_parse_error-Known E P caught what (ok a) h = h
as_parse_error-Known E P caught what (raise e) h = rw h (from_llm refl)

-- The same, where `json.loads` was called.
loaded-Known :
    {A : Type 0} (E : ExceptionClass → Type 0) (P : A → Type 0) (caught : ExceptionClass → Bool)
    (what : String) (m : Result A)
    → Ensures P (λ c. (caught c ≡ true) ⊎ IsUnread c) m
    → Ensures P (Known E) (as_parse_error caught what m)
unfolding as_parse_error
loaded-Known E P caught what (ok a) h = h
loaded-Known E P caught what (raise e) (inl h) = rw h (from_llm refl)
loaded-Known E P caught what (raise e) (inr u) = elim (Bool-cases (caught e.class)) [
  | inl k ↦ rw k (from_llm refl)
  | inr k ↦ rw k (unread u)
]

timed_post-Known :
    {A : Type 0} (E : ExceptionClass → Type 0) (P : A → Type 0) (what : String) (m : Result A)
    → Ensures P (FromClient E) m
    → Ensures P (Known E) (timed_post what m)
unfolding timed_post
timed_post-Known E P what (ok a) h = h
timed_post-Known E P what (raise e) (inl h) = elim (Bool-cases (is_timeout e.class)) [
  | inl k ↦ rw k (from_llm refl)
  | inr k ↦ rw k (from_llm h)
]
timed_post-Known E P what (raise e) (inr (inl h)) = rw (ap is_timeout h) (from_llm refl)
timed_post-Known E P what (raise e) (inr (inr x)) = elim (Bool-cases (is_timeout e.class)) [
  | inl k ↦ rw k (from_llm refl)
  | inr k ↦ rw k (from_transport x)
]

module _ {F : Type 0} (b : Codec F) where
  -- JSON was asked for and is that of the text, or it was not and there is none.
  abbrev pub StructuredAs : String → String → Option (Json F) → Type 0
  StructuredAs format s structured =
      ((str_eq format "json" ≡ true) × ((v : Json F) × (b.loads s ≡ ok v) × (structured ≡ some v)))
      ⊎ ((str_eq format "json" ≡ false) × (structured ≡ none))

module _ {F : Type 0} ⦃fl : Float F⦄ (b : Codec F) (d : IsDocumented fl b)
    (E : ExceptionClass → Type 0) where
  decode_body-Known :
      (provider url : String) (r : HttpResponse)
      → Ensures AnyValue (Known E) (decode_body b provider url r)
  unfolding decode_body
  decode_body-Known provider url r = elim (Bool-cases (ltb r.status 200 || leb 300 r.status)) [
    | inl h ↦ rw h (from_llm refl)
    | inr h ↦ rw h (
        loaded-Known E AnyValue is_decode_error _ _ (
          Ensures-bind AnyValue AnyValue _ (b.decode r.body) b.loads
            (Ensures-map AnyValue AnyValue _ _ (b.decode r.body) (λ a k. k) (λ c k. inl k)
              (d.decode_raises r.body))
            (λ s _.
              Ensures-map AnyValue AnyValue _ _ (b.loads s) (λ a k. k) loads_or_decode
                (d.loads_raises s))))
  ]

  pub post_json-Known :
      (http : HttpClient F) (call : HttpCall F) (provider : String)
      → IsTransport E http
      → Ensures AnyValue (Known E) (post_json b http call provider)
  unfolding post_json
  post_json-Known http call provider t =
      Ensures-bind AnyValue AnyValue (Known E) _ _ (timed_post-Known E AnyValue _ _ (t.fails call))
        (λ r _. decode_body-Known provider call.url r)

  token_count-Known : (v : Json F) → Ensures AnyValue (Known E) (token_count b v)
  unfolding token_count
  token_count-Known (number x) = elim (Bool-cases (fl.le (fl.of_int (pos 0)) x)) [
    | inl h ↦ rw h (
        Ensures-bind AnyValue AnyValue (Known E) (b.int_float x) _
          (Ensures-map AnyValue AnyValue _ (Known E) (b.int_float x) (λ a k. k)
            (λ c k. overflowed k) (d.int_raises x h))
          (λ n _. tt))
    | inr h ↦ rw h tt
  ]
  token_count-Known (integer (pos n)) = tt
  token_count-Known (integer (ℤ.negsuc n)) = tt
  token_count-Known null = tt
  token_count-Known (boolean v) = tt
  token_count-Known (Json.text s) = tt
  token_count-Known (array xs) = tt
  token_count-Known (object xs) = tt

  pub usage_of-Known :
      (prompt completion total : String) (v : Json F)
      → Ensures AnyValue (Known E) (usage_of b prompt completion total v)
  unfolding usage_of
  usage_of-Known prompt completion total (object entries) =
      Ensures-bind AnyValue AnyValue (Known E) _ _ (token_count-Known _) (λ p _.
        Ensures-bind AnyValue AnyValue (Known E) _ _ (token_count-Known _)
          (λ c _. Ensures-bind AnyValue AnyValue (Known E) _ _ (token_count-Known _) (λ t _. tt)))
  usage_of-Known prompt completion total null = tt
  usage_of-Known prompt completion total (boolean v) = tt
  usage_of-Known prompt completion total (integer n) = tt
  usage_of-Known prompt completion total (number x) = tt
  usage_of-Known prompt completion total (Json.text s) = tt
  usage_of-Known prompt completion total (array xs) = tt

  pub structured_of-As :
      (format s : String) → Ensures (StructuredAs b format s) (Known E) (structured_of b format s)
  unfolding structured_of parse_structured as_parse_error ◌>>=◌
  structured_of-As format s = elim (Bool-cases (str_eq format "json")) [
    | inr h ↦ rw h (inr (h, refl))
    | inl h ↦ loaded (b.loads s) refl h (d.loads_raises s)
  ]
    where
      loaded :
          (m : Result (Json F))
          → b.loads s ≡ m
          → str_eq format "json" ≡ true
          → Ensures AnyValue (λ c. (is_json_error c ≡ true) ⊎ IsUnread c) m
          → Ensures (StructuredAs b format s) (Known E) (structured_of b format s)
      loaded (ok v) e h k = rw (h, e) (inl (h, (v, e, refl)))
      loaded (raise x) e h (inl k) = rw (h, e, k) (from_llm refl)
      loaded (raise x) e h (inr u) =
          rw (h, e)
            (elim (Bool-cases (is_json_error x.class)) [
              | inl k ↦ rw k (from_llm refl)
              | inr k ↦ rw k (unread u)
            ])

-- The classes that the `try` of a provider catches.
abbrev pub Caught : ExceptionClass → Type 0
Caught c = is_envelope_error c ≡ true

module _ {F : Type 0} where
  key_or_error-Caught :
      (key : String) (o : Option (Json F)) → Ensures AnyValue Caught (key_or_error key o)
  unfolding key_or_error
  key_or_error-Caught key (some v) = tt
  key_or_error-Caught key none = refl

  pub subscript-Caught : (v : Json F) (key : String) → Ensures AnyValue Caught (subscript v key)
  unfolding subscript
  subscript-Caught (object entries) key = key_or_error-Caught key _
  subscript-Caught null key = refl
  subscript-Caught (boolean v) key = refl
  subscript-Caught (integer n) key = refl
  subscript-Caught (number x) key = refl
  subscript-Caught (Json.text s) key = refl
  subscript-Caught (array xs) key = refl

  pub first_of-Caught : (v : Json F) → Ensures AnyValue Caught (first_of v)
  unfolding first_of
  first_of-Caught (array (item v rest)) = tt
  first_of-Caught (array no_item) = refl
  first_of-Caught (Json.text (String.◌∷◌ c s)) = tt
  first_of-Caught (Json.text String.[]) = refl
  first_of-Caught (object entries) = refl
  first_of-Caught null = refl
  first_of-Caught (boolean v) = refl
  first_of-Caught (integer n) = refl
  first_of-Caught (number x) = refl

  pub get_of-Caught :
      (v : Json F) (key : String) (default : Json F)
      → Ensures AnyValue Caught (get_of v key default)
  unfolding get_of
  get_of-Caught (object entries) key default = tt
  get_of-Caught null key default = refl
  get_of-Caught (boolean v) key default = refl
  get_of-Caught (integer n) key default = refl
  get_of-Caught (number x) key default = refl
  get_of-Caught (Json.text s) key default = refl
  get_of-Caught (array xs) key default = refl
