-- ===== src/Ai/Json.antt =====
-- Values of `json.loads`, as mt5_agent/ai/planner.py reads and writes them.
use llm_mt5_agent.Prelude.{ℕ, ℤ, String, str_eq, Bool, none, some, if◌then◌else◌, List, [], ◌∷◌}
use llm_mt5_agent.Python.Errors.{Result, ok, raise, type_error, value_error}
use llm_mt5_agent.Python.Float.{Float, lit}

mutual
  pub data Json (F : Type 0) : Type 0 where
    null : Json F
    boolean : Bool → Json F
    integer : ℤ → Json F
    number : F → Json F
    text : String → Json F
    array : Items F → Json F
    object : Members F → Json F

  pub data Items (F : Type 0) : Type 0 where
    no_item : Items F
    item : Json F → Items F → Items F

  pub data Members (F : Type 0) : Type 0 where
    no_member : Members F
    member : String → Json F → Members F → Members F

-- `data.get(key, default)`
unfoldable pub get : {F : Type 0} → Members F → String → Json F → Json F
get no_member key default = default
get (member k v rest) key default = if str_eq k key then v else get rest key default

abbrev pub items : {F : Type 0} → List (Json F) → Items F
items [] = no_item
items (x ∷ xs) = item x (items xs)

abbrev pub members : {F : Type 0} → List (String × Json F) → Members F
members [] = no_member
members ((k, v) ∷ xs) = member k v (members xs)

-- The builtins that the planner applies to such values: `float(n)` of an `int`, which overflows for
-- a large one, `str` and `repr`, `str.upper`, `json.dumps(..., default=str)`, `isoformat`.
pub record Builtins (F : Type 0) : Type 0 where
  pub float_int : ℤ → Result F
  pub str : Json F → String
  pub repr : Json F → String
  pub upper : String → String
  pub dumps : Json F → String
  pub isoformat : ℕ → String

-- `float(value)`
unfoldable pub to_float : {F : Type 0} ⦃fl : Float F⦄ → Builtins F → Json F → Result F
to_float b (number x) = ok x
to_float b (integer n) = b.float_int n
to_float b (boolean v) = ok (if v then lit 1 else lit 0)
to_float ⦃fl⦄ b (text s) = elim (fl.parse s) [
  | some x ↦ ok x
  | none ↦ raise (record { class = value_error; message = "could not convert string to float" })
]
to_float b _ =
    raise (record {
      class = type_error;
      message = "float() argument must be a string or a real number";
    })
