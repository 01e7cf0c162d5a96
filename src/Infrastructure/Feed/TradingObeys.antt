-- ===== src/Infrastructure/Feed/TradingObeys.antt =====
-- mt5_agent/infrastructure/mt5/trading_adapter.py: what the adapter asks of the module, what its four
-- reads return and what they raise.
use llm_mt5_agent.Prelude.{ltb, str_eq, strip, String, ◌≡◌, ◌⊎◌, false, Option, none, some, List}
use llm_mt5_agent.Python.Step.{Step}
use llm_mt5_agent.Python.Errors.{ExceptionClass, type_error, Result}
use llm_mt5_agent.Python.Float.{Float, Datetime}
use llm_mt5_agent.Python.Ends.{Ends}
use llm_mt5_agent.Python.Obeys.{Obeys}
use llm_mt5_agent.Infrastructure.Mappers.{Raw, Rows}
use llm_mt5_agent.Infrastructure.Mappers.Collections.{AreMapped}
use llm_mt5_agent.Infrastructure.Feed.Trading.{TradingModule, only, TradingFeed}
use llm_mt5_agent.Infrastructure.Feed.Guard.{FeedError, Guarded}

-- The filter that a symbol becomes: none, or a text that is not empty.
abbrev pub IsFilter : Option String → Option String → Type 0
IsFilter none name = name ≡ none
IsFilter (some symbol) name = (name ≡ some (strip symbol)) × (str_eq (strip symbol) "" ≡ false)

-- What a module may answer to each of its four questions: any relation of a question to its answer.
pub record TradingAnswers (F : Type 0) : Type 1 where
  pub of_positions : Option String → Rows F → Type 0
  pub of_orders : Option String → Rows F → Type 0
  pub of_deals : Datetime → Datetime → Rows F → Type 0
  pub of_past_orders : Datetime → Datetime → Rows F → Type 0

-- A module that keeps `P`, gives such answers and raises with `E` when it is asked with such a filter,
-- and for a period that does not end before it starts.
pub record IsTradingModule {F W : Type 0} (A : TradingAnswers F) (P : W → Type 0)
    (E : ExceptionClass → Type 0) (m : TradingModule F W) : Type 0 where
  pub positions :
      (symbol name : Option String)
      → IsFilter symbol name
      → Obeys P (A.of_positions name) E (m.positions_get name)
  pub orders :
      (symbol name : Option String)
      → IsFilter symbol name
      → Obeys P (A.of_orders name) E (m.orders_get name)
  pub deals :
      (start end_ : Datetime)
      → ltb end_ start ≡ false
      → Obeys P (A.of_deals start end_) E (m.history_deals_get start end_)
  pub past_orders :
      (start end_ : Datetime)
      → ltb end_ start ≡ false
      → Obeys P (A.of_past_orders start end_) E (m.history_orders_get start end_)

abbrev pub TradingGuard :
    {F W : Type 0}
    → TradingAnswers F
    → (W → Type 0)
    → (ExceptionClass → Type 0)
    → TradingFeed F W
    → Type 0
TradingGuard A P E = Guarded (IsTradingModule A P E) P

-- What the read of positions may raise further.
abbrev pub PositionError : (ExceptionClass → Type 0) → ExceptionClass → Type 0
PositionError E k = FeedError E k ⊎ (k ≡ type_error)

-- The records of a collection that the module answered to a question.
pub record AreRows {F A : Type 0} (Said : Rows F → Type 0) (V : A → Type 0)
    (mapper : Raw F → Result A) (xs : List A) : Type 0 where
  pub raw : Rows F
  pub answered : Said raw
  pub mapped : AreMapped V mapper raw xs

-- The same of a question with a filter.
pub record AreFound {F A : Type 0} (Said : Option String → Rows F → Type 0) (V : A → Type 0)
    (mapper : Raw F → Result A) (symbol : Option String) (xs : List A) : Type 0 where
  pub name : Option String
  pub filter_of : IsFilter symbol name
  pub rows_of : AreRows (Said name) V mapper xs

-- Of all the records, those that the filter keeps.
pub record AreKept {F A : Type 0} (Said : Rows F → Type 0) (V : A → Type 0)
    (mapper : Raw F → Result A) (symbol_of : A → String) (symbol : Option String) (xs : List A)
    : Type 0 where
  pub name : Option String
  pub filter_of : IsFilter symbol name
  pub records : List A
  pub all_rows : AreRows Said V mapper records
  pub kept : xs ≡ only symbol_of name records
