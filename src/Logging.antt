-- ===== src/Logging.antt =====
-- mt5_agent/logging_utils.py: the scrubbing of secrets. A logged value is a `Json`; a list stands for
-- a tuple too. The two regular expressions and `str.lower` are arguments.
pub mod Secrets
mod Tests
use llm_mt5_agent.Prelude.{if◌then◌else◌, any, str_eq, occurs_in, String, Bool, List, [], ◌∷◌}
use llm_mt5_agent.Ai.Json.{Json, object, array, Items, no_item, item, Members, no_member, member}
use Prim.Native.Char.{code}

-- What the program uses of `re` and `str`.
pub record Patterns : Type 0 where
  -- `_INLINE_PATTERNS[0].sub(r"\1=***", text)` and `_INLINE_PATTERNS[1].sub("Bearer ***", text)`
  pub sub_pairs : String → String
  pub sub_bearer : String → String
  pub lower : String → String

abbrev pub mask : String
mask = "***"

abbrev pub secret_key_parts : List String
secret_key_parts =
    "password" ∷ "passwd" ∷ "api_key" ∷ "apikey" ∷ "secret" ∷ "token" ∷ "authorization" ∷ "bearer"
    ∷ "private_key" ∷ "credentials" ∷ "account_login" ∷ "login" ∷ "server" ∷ []

-- `_is_secret_key(key)`
unfoldable pub is_secret_key : Patterns → String → Bool
is_secret_key p key = any (λ part. occurs_in part (p.lower key)) secret_key_parts

-- `scrub_message(message)`
unfoldable pub scrub_message : Patterns → String → String
scrub_message p message = p.sub_bearer (p.sub_pairs message)

module _ {F : Type 0} (p : Patterns) where
  -- `scrub_value(value)`, for a value, a list of values and the entries of a dictionary
  unfoldable mutual
    pub scrub_value : Json F → Json F
    scrub_value (object entries) = object (scrub_members entries)
    scrub_value (array values) = array (scrub_items values)
    scrub_value (Json.text s) = Json.text (scrub_message p s)
    scrub_value v = v

    pub scrub_items : Items F → Items F
    scrub_items no_item = no_item
    scrub_items (item v rest) = item (scrub_value v) (scrub_items rest)

    pub scrub_members : Members F → Members F
    scrub_members no_member = no_member
    scrub_members (member key v rest) =
        member key (if is_secret_key p key then Json.text mask else scrub_value v)
          (scrub_members rest)

  -- `{**fields}` onto a dictionary: a key that is there keeps its place.
  unfoldable pub put : Members F → String → Json F → Members F
  put no_member key v = member key v no_member
  put (member k w rest) key v =
      let later = put rest key v in if str_eq k key then member k v rest else member k w later

  unfoldable pub merge : Members F → Members F → Members F
  merge base no_member = base
  merge base (member key v rest) = merge (put base key v) rest

  -- The `extra_fields` that `audit(logger, event, **fields)` logs; `ts` is the clock in ISO format.
  unfoldable pub audit_fields : String → String → Members F → Members F
  audit_fields event ts fields =
      merge (member "audit_event" (Json.text event) (member "ts" (Json.text ts) no_member))
        (scrub_members fields)

  -- The `extra_fields` of a record that `SecretScrubbingFilter.filter` lets through.
  unfoldable pub filtered_fields : Members F → Members F
  filtered_fields fields = scrub_members fields
