-- ===== src/Infrastructure/Feed/MarketObeys.antt =====
-- mt5_agent/infrastructure/mt5/market_adapter.py: what the adapter asks of the module, what it returns
-- and what it raises.
use llm_mt5_agent.Prelude.{
  ℤ, pos, ltb_ℤ, str_eq, strip, ℕ, String, ◌≡◌, refl, false, ◌||◌, Option, none, some,
}
use llm_mt5_agent.Python.Step.{Step}
use llm_mt5_agent.Python.Errors.{ExceptionClass}
use llm_mt5_agent.Python.Float.{Float}
use llm_mt5_agent.Python.Obeys.{Obeys, bind-Obeys, lift-Obeys, pure-Obeys, catch-Obeys, if-Obeys}
use llm_mt5_agent.Domain.Market.{Timeframe}
use llm_mt5_agent.Infrastructure.Mappers.{Raw, Rows, Conversions}
use llm_mt5_agent.Infrastructure.Mappers.Reading.{IsDocumented}
use llm_mt5_agent.Infrastructure.Feed.Market.{
  MarketModule, max_candles, is_missing, is_not_found, is_market_error, clean_symbol, check_count,
  check_start_pos, resolve_timeframe, MarketFeed, last_error_text, or_none, not_found, probe_symbol,
  raise_unknown_or_data,
}
use llm_mt5_agent.Infrastructure.Feed.Guard.{
  FeedError, market_data, unknown_symbol, Guarded, fail-Obeys, on_world-Obeys,
}

-- What a module may answer to each of its questions, any relation of a question to its answer, and the
-- constants that it may have.
pub record MarketAnswers (F : Type 0) : Type 1 where
  pub of_tick : String → Raw F → Type 0
  pub of_info : String → Raw F → Type 0
  pub of_rates : String → ℕ → ℤ → ℤ → Rows F → Type 0
  pub of_constant : String → ℕ → Type 0

-- A module that keeps `P`, gives such answers and raises with `E` when it is asked for a symbol that is
-- not empty, from 1 to 5000 candles and a start that is not negative.
pub record IsMarketModule {F W : Type 0} (A : MarketAnswers F) (P : W → Type 0)
    (E : ExceptionClass → Type 0) (m : MarketModule F W) : Type 0 where
  pub ticks :
      (name : String)
      → str_eq name "" ≡ false
      → Obeys P (A.of_tick name) E (m.symbol_info_tick name)
  pub infos :
      (name : String) → str_eq name "" ≡ false → Obeys P (A.of_info name) E (m.symbol_info name)
  pub rates :
      (name : String) (timeframe : ℕ) (start count : ℤ)
      → str_eq name "" ≡ false
      → ltb_ℤ start (pos 0) ≡ false
      → (ltb_ℤ count (pos 1) || ltb_ℤ max_candles count) ≡ false
      → Obeys P
          (A.of_rates name timeframe start count)
          E
          (m.copy_rates_from_pos name timeframe start count)
  pub errors : Obeys P (λ text. Unit {0}) E m.last_error
  pub constants : (name : String) (n : ℕ) → m.attribute name ≡ some n → A.of_constant name n

-- The name that a symbol is read under.
abbrev pub IsName : String → String → Type 0
IsName symbol name = (name ≡ strip symbol) × (str_eq name "" ≡ false)

abbrev pub MarketGuard :
    {F W : Type 0}
    → MarketAnswers F
    → (W → Type 0)
    → (ExceptionClass → Type 0)
    → MarketFeed F W
    → Type 0
MarketGuard A P E = Guarded (IsMarketModule A P E) P

-- What holds of a value where there is one.
abbrev pub IfSome : {A : Type 0} → (A → Type 0) → Option A → Type 0
IfSome V none = Unit
IfSome V (some a) = V a

module _ {S : Type 0} {P : S → Type 0} {E : ExceptionClass → Type 0} where
  pub clean_symbol-Obeys :
      (symbol : String) → Obeys P (IsName symbol) (FeedError E) (clean_symbol symbol)
  unfolding clean_symbol
  clean_symbol-Obeys symbol =
      if-Obeys (str_eq (strip symbol) "") (λ _. fail-Obeys (market_data refl))
        (λ h. pure-Obeys (refl, h))

  pub check_count-Obeys :
      (count : ℤ)
      → Obeys P
          (λ x. (ltb_ℤ count (pos 1) || ltb_ℤ max_candles count) ≡ false)
          (FeedError E)
          (check_count count)
  unfolding check_count
  check_count-Obeys count =
      if-Obeys (ltb_ℤ count (pos 1) || ltb_ℤ max_candles count) (λ _. fail-Obeys (market_data refl))
        (λ h. pure-Obeys h)

  pub check_start_pos-Obeys :
      (start : ℤ) → Obeys P (λ x. ltb_ℤ start (pos 0) ≡ false) (FeedError E) (check_start_pos start)
  unfolding check_start_pos
  check_start_pos-Obeys start =
      if-Obeys (ltb_ℤ start (pos 0)) (λ _. fail-Obeys (market_data refl)) (λ h. pure-Obeys h)

  pub resolve_timeframe-Obeys :
      (timeframe : Timeframe) (found : Option ℕ)
      → Obeys P (λ n. found ≡ some n) (FeedError E) (resolve_timeframe timeframe found)
  unfolding resolve_timeframe
  resolve_timeframe-Obeys timeframe (some value) = pure-Obeys refl
  resolve_timeframe-Obeys timeframe none = fail-Obeys (market_data refl)

module _ {F W : Type 0} {A : MarketAnswers F} {P : W → Type 0} {E : ExceptionClass → Type 0} where
  last_error_text-Obeys :
      (m : MarketModule F W)
      → IsMarketModule A P E m
      → Obeys (MarketGuard A P E) (λ text. Unit {0}) (FeedError E) (last_error_text m)
  unfolding last_error_text
  last_error_text-Obeys m h = catch-Obeys (on_world-Obeys h.errors) (λ e _. pure-Obeys tt)

  pub or_none-Obeys :
      {B : Type 0} {V : B → Type 0} {m : Step (MarketFeed F W) B}
      → Obeys (MarketGuard A P E) V (FeedError E) m
      → Obeys (MarketGuard A P E) (IfSome V) (FeedError E) (or_none m)
  unfolding or_none
  or_none-Obeys h = catch-Obeys (bind-Obeys h (λ a v. pure-Obeys v)) (λ e d.
      if-Obeys (is_market_error e.class) (λ _. pure-Obeys tt)
        (λ _. lift-Obeys (record { ends = d })))

module _ {F W : Type 0} ⦃fl : Float F⦄ (quoted : String → String) (c : Conversions F)
    (d : IsDocumented c) {A : MarketAnswers F} {P : W → Type 0} {E : ExceptionClass → Type 0} where
  pub not_found-Obeys :
      {B : Type 0} {V : B → Type 0} (name : String)
      → Obeys (MarketGuard A P E) V (FeedError E) (not_found quoted c {A = B} name)
  unfolding not_found
  not_found-Obeys name = fail-Obeys (unknown_symbol refl)

  probe_symbol-Obeys :
      (m : MarketModule F W) (name : String)
      → IsMarketModule A P E m
      → str_eq name "" ≡ false
      → Obeys (MarketGuard A P E) (λ x. Unit {0}) (FeedError E) (probe_symbol quoted c m name)
  unfolding probe_symbol
  probe_symbol-Obeys m name h n =
      catch-Obeys
        (bind-Obeys (on_world-Obeys (h.infos name n))
          (λ info _. if-Obeys (is_missing info) (λ _. not_found-Obeys name) (λ _. pure-Obeys tt)))
        (λ e x.
          if-Obeys (is_not_found e.class) (λ _. lift-Obeys (record { ends = x }))
            (λ _. pure-Obeys tt))

  pub raise_unknown_or_data-Obeys :
      {B : Type 0} {V : B → Type 0} (m : MarketModule F W) (name what : String)
      → IsMarketModule A P E m
      → str_eq name "" ≡ false
      → Obeys (MarketGuard A P E) V (FeedError E) (raise_unknown_or_data quoted c m name what)
  unfolding raise_unknown_or_data
  raise_unknown_or_data-Obeys m name what h n =
      bind-Obeys (probe_symbol-Obeys m name h n)
        (λ _ _. bind-Obeys (last_error_text-Obeys m h) (λ _ _. fail-Obeys (market_data refl)))
