-- ===== src/Infrastructure/Mappers/Collections.antt =====
-- mt5_agent/infrastructure/mt5/trading_mappers.py: what the mappers of positions, orders and deals
-- return and raise, one object or a collection of them.
use llm_mt5_agent.Prelude.{
  ◌==◌, Bool-cases, if-cases, ℕ, String, ◌≡◌, refl, ◌⊎◌, inl, inr, true, false, List, [],
}
use llm_mt5_agent.Python.Bind.{Ensures}
use llm_mt5_agent.Python.Errors.{
  ExceptionClass, value_error, type_error, is_conversion_error, Result, ok, raise,
}
use llm_mt5_agent.Python.Ends.{Ends, Settles, bind-Ends, bind-Settles, map-Ends, map-Settles}
use llm_mt5_agent.Python.Float.{Float}
use llm_mt5_agent.Domain.Trading.{PositionSide}
use llm_mt5_agent.Infrastructure.Mappers.{
  integer, Fields, Raw, Rows, no_rows, not_iterable, rows, Conversions, field_or,
}
use llm_mt5_agent.Infrastructure.Mappers.Trading.{
  side_of_type, is_value_error, side_or_error, read_side, map_position, map_order, map_deal,
  map_many,
}
use llm_mt5_agent.Infrastructure.Mappers.Reading.{
  DataError, IsDocumented, payload-Ends, as_mapping-Settles,
}
use llm_mt5_agent.Infrastructure.Mappers.Valid.{
  IsPosition, IsOrder, IsDeal, position_of-Ends, order_of-Ends, deal_of-Ends,
}
use llm_mt5_agent.Infrastructure.Mappers.Mapped.{Mapped, map_rows-Mapped}

-- The type of a position is read outside the handler of TypeError.
abbrev pub RowError : ExceptionClass → Type 0
RowError k = DataError k ⊎ (k ≡ type_error)

-- The records of a collection: none of None, else one for each row, in order.
abbrev pub AreMapped : {F A : Type 0} → (A → Type 0) → (Raw F → Result A) → Rows F → List A → Type 0
AreMapped P mapper no_rows xs = xs ≡ []
AreMapped P mapper not_iterable xs = ⊥
AreMapped P mapper (rows items) xs = Mapped P mapper items xs

pub map_many-Ends :
    {F A : Type 0} {P : A → Type 0} (E : ExceptionClass → Type 0) (what : String)
    (mapper : Raw F → Result A) (raw : Rows F)
    → ((k : ExceptionClass) → DataError k → E k)
    → ((row : Raw F) → Ends P E (mapper row))
    → Ends (AreMapped P mapper raw) E (map_many what mapper raw)
unfolding map_many
map_many-Ends E what mapper no_rows w each = record { ends = refl }
map_many-Ends E what mapper not_iterable w each = record { ends = w _ (inl refl) }
map_many-Ends {P} E what mapper (rows items) w each = record {
  ends = map_rows-Mapped P E mapper each items;
}

-- What `PositionSide(int(...))` may raise.
abbrev SideError : ExceptionClass → Type 0
SideError k = (is_conversion_error k ≡ true) ⊎ (k ≡ ExceptionClass.other "OverflowError")

side_of_type-Settles : (n : ℕ) → Settles SideError (side_of_type n)
unfolding side_of_type
side_of_type-Settles n = record {
  settles =
      if-cases (n == 0) (Ensures (λ s. Unit {0}) SideError) (λ _. tt)
        (λ _. if-cases (n == 1) (Ensures (λ s. Unit {0}) SideError) (λ _. tt) (λ _. inl refl));
}

type_error_else :
    (k : ExceptionClass) → is_conversion_error k ≡ true → is_value_error k ≡ false → k ≡ type_error
type_error_else type_error h n = refl
type_error_else value_error h n = cc
type_error_else k h n = cc

side_or_error-Settles :
    (shown : String) (m : Result PositionSide)
    → Settles SideError m
    → Settles RowError (side_or_error shown m)
unfolding side_or_error
side_or_error-Settles shown (ok side) h = record { settles = tt }
side_or_error-Settles shown (raise e) h = record {
  settles = elim (Bool-cases (is_value_error e.class)) [
    | inl v ↦ rw v (inl (inl refl))
    | inr v ↦ rw v (elim h.settles [ inl x ↦ inr (type_error_else _ x v) | inr x ↦ inl (inr x) ])
  ];
}

module _ {F : Type 0} ⦃fl : Float F⦄ (c : Conversions F) (d : IsDocumented c) where
  read_side-Settles : (x : Fields F) → Settles RowError (read_side c x)
  unfolding read_side
  read_side-Settles x = side_or_error-Settles _ _ (
      bind-Settles (record { settles = d.int_raises (field_or x "type" (integer 0)) })
        side_of_type-Settles)

  pub map_position-Ends : (raw : Raw F) → Ends IsPosition RowError (map_position c raw)
  unfolding map_position
  map_position-Ends raw =
      bind-Ends (map-Settles (λ k x. inl x) (as_mapping-Settles "position" raw)) (λ x.
        bind-Ends (read_side-Settles x) (λ side.
          map-Ends (λ a p. p) (λ k e. inl e) (payload-Ends _ _ (position_of-Ends c d side x))))

  pub map_order-Ends : (what : String) (raw : Raw F) → Ends IsOrder DataError (map_order c what raw)
  unfolding map_order
  map_order-Ends what raw =
      bind-Ends (as_mapping-Settles what raw) (λ x. payload-Ends _ _ (order_of-Ends c d x))

  pub map_deal-Ends : (raw : Raw F) → Ends IsDeal DataError (map_deal c raw)
  unfolding map_deal
  map_deal-Ends raw =
      bind-Ends (as_mapping-Settles "deal" raw) (λ x. payload-Ends _ _ (deal_of-Ends c d x))
