-- ===== src/Infrastructure/Mappers/Valid.antt =====
-- mt5_agent/infrastructure/mt5: what the mappers return and raise for whatever the terminal reports.
use llm_mt5_agent.Prelude.{◌==◌, Bool-cases, is_blank, String, ◌≡◌, refl, inl, inr, false, ◌||◌}
use llm_mt5_agent.Python.Ends.{Ends, bind-Ends, ok-Ends}
use llm_mt5_agent.Python.Float.{Float, ◌<?◌, ◌≤?◌, lit}
use llm_mt5_agent.Domain.Market.{
  Timeframe, Tick, Candle, SymbolInfo, new_tick, max_of, min_of, new_candle, new_symbol_info,
}
use llm_mt5_agent.Domain.Trading.{
  PositionSide, Position, Order, Deal, new_position, new_order, new_deal,
}
use llm_mt5_agent.Infrastructure.Mappers.{nothing, integer, Fields, Raw, Conversions, field_or}
use llm_mt5_agent.Infrastructure.Mappers.Account.{
  account_of, map_account_info, terminal_of, map_terminal_info,
}
use llm_mt5_agent.Infrastructure.Mappers.Market.{tick_of, candle_of, symbol_info_of}
use llm_mt5_agent.Infrastructure.Mappers.Trading.{position_of, order_of, deal_of}
use llm_mt5_agent.Infrastructure.Mappers.Reading.{
  DataError, Unread, IsDocumented, int_of-Settles, float_of-Settles, utc_from_epoch-Settles,
  payload-Ends, as_mapping-Settles, utc_from_ms-Settles,
}

module _ {F : Type 0} ⦃fl : Float F⦄ where
  -- Positive quotes of a symbol that are not crossed.
  pub record IsTick (symbol : String) (t : Tick F) : Type 0 where
    pub of_symbol : t.symbol ≡ symbol
    pub named : is_blank symbol ≡ false
    pub positive : (t.bid ≤? lit 0 || t.ask ≤? lit 0) ≡ false
    pub uncrossed : (t.ask <? t.bid) ≡ false

  -- Positive prices of a symbol and a timeframe, the high and the low round them.
  pub record IsCandle (symbol : String) (timeframe : Timeframe) (x : Candle F) : Type 0 where
    pub of_symbol : x.symbol ≡ symbol
    pub of_timeframe : x.timeframe ≡ timeframe
    pub named : is_blank symbol ≡ false
    pub open_positive : (x.open_ ≤? lit 0) ≡ false
    pub high_positive : (x.high ≤? lit 0) ≡ false
    pub low_positive : (x.low ≤? lit 0) ≡ false
    pub close_positive : (x.close ≤? lit 0) ≡ false
    pub enclosed : (x.high <? max_of x.open_ x.close || min_of x.open_ x.close <? x.low) ≡ false

  pub record IsPosition (x : Position F) : Type 0 where
    pub ticketed : (x.ticket == 0) ≡ false
    pub named : is_blank x.symbol ≡ false
    pub sized : (x.volume ≤? lit 0) ≡ false

  pub record IsOrder (x : Order F) : Type 0 where
    pub ticketed : (x.ticket == 0) ≡ false
    pub named : is_blank x.symbol ≡ false
    pub sized : (x.volume_initial <? lit 0 || x.volume_current <? lit 0) ≡ false

  pub record IsDeal (x : Deal F) : Type 0 where
    pub ticketed : (x.ticket == 0) ≡ false
    pub sized : (x.volume <? lit 0) ≡ false

  new_symbol_info-Named :
      (x : SymbolInfo F) → Ends (λ y. is_blank y.symbol ≡ false) Unread (new_symbol_info x)
  unfolding new_symbol_info
  new_symbol_info-Named x = record {
    ends = elim (Bool-cases (is_blank x.symbol)) [ inl a ↦ rw a (inl refl) | inr a ↦ rw a a ];
  }

  new_tick-IsTick : (t : Tick F) → Ends (IsTick t.symbol) Unread (new_tick t)
  unfolding new_tick
  new_tick-IsTick t = record {
    ends = elim (Bool-cases (is_blank t.symbol)) [
      | inl a ↦ rw a (inl refl)
      | inr a ↦ rw a (elim (Bool-cases (t.bid ≤? lit 0 || t.ask ≤? lit 0)) [
        | inl b ↦ rw b (inl refl)
        | inr b ↦ rw b (elim (Bool-cases (t.ask <? t.bid)) [
          | inl d ↦ rw d (inl refl)
          | inr d ↦ rw d (record { of_symbol = refl; named = a; positive = b; uncrossed = d })
        ])
      ])
    ];
  }

  new_candle-IsCandle : (x : Candle F) → Ends (IsCandle x.symbol x.timeframe) Unread (new_candle x)
  unfolding new_candle
  new_candle-IsCandle x = record {
    ends = elim (Bool-cases (is_blank x.symbol)) [
      | inl a ↦ rw a (inl refl)
      | inr a ↦ rw a (elim (Bool-cases (x.open_ ≤? lit 0)) [
        | inl b ↦ rw b (inl refl)
        | inr b ↦ rw b (elim (Bool-cases (x.high ≤? lit 0)) [
          | inl d ↦ rw d (inl refl)
          | inr d ↦ rw d (elim (Bool-cases (x.low ≤? lit 0)) [
            | inl e ↦ rw e (inl refl)
            | inr e ↦ rw e (elim (Bool-cases (x.close ≤? lit 0)) [
              | inl f ↦ rw f (inl refl)
              | inr f ↦
                  rw f
                    (elim (Bool-cases
                      (x.high <? max_of x.open_ x.close || min_of x.open_ x.close <? x.low)) [
                        | inl g ↦ rw g (inl refl)
                        | inr g ↦ rw g (record {
                          of_symbol = refl;
                          of_timeframe = refl;
                          named = a;
                          open_positive = b;
                          high_positive = d;
                          low_positive = e;
                          close_positive = f;
                          enclosed = g;
                        })
                      ])
            ])
          ])
        ])
      ])
    ];
  }

  new_position-IsPosition : (x : Position F) → Ends IsPosition Unread (new_position x)
  unfolding new_position
  new_position-IsPosition x = record {
    ends = elim (Bool-cases (x.ticket == 0)) [
      | inl a ↦ rw a (inl refl)
      | inr a ↦ rw a (elim (Bool-cases (is_blank x.symbol)) [
        | inl b ↦ rw b (inl refl)
        | inr b ↦ rw b (elim (Bool-cases (x.volume ≤? lit 0)) [
          | inl d ↦ rw d (inl refl)
          | inr d ↦ rw d (record { ticketed = a; named = b; sized = d })
        ])
      ])
    ];
  }

  new_order-IsOrder : (x : Order F) → Ends IsOrder Unread (new_order x)
  unfolding new_order
  new_order-IsOrder x = record {
    ends = elim (Bool-cases (x.ticket == 0)) [
      | inl a ↦ rw a (inl refl)
      | inr a ↦ rw a (elim (Bool-cases (is_blank x.symbol)) [
        | inl b ↦ rw b (inl refl)
        | inr b ↦ rw b (elim (Bool-cases (x.volume_initial <? lit 0 || x.volume_current <? lit 0)) [
          | inl d ↦ rw d (inl refl)
          | inr d ↦ rw d (record { ticketed = a; named = b; sized = d })
        ])
      ])
    ];
  }

  new_deal-IsDeal : (x : Deal F) → Ends IsDeal Unread (new_deal x)
  unfolding new_deal
  new_deal-IsDeal x = record {
    ends = elim (Bool-cases (x.ticket == 0)) [
      | inl a ↦ rw a (inl refl)
      | inr a ↦ rw a (elim (Bool-cases (x.volume <? lit 0)) [
        | inl b ↦ rw b (inl refl)
        | inr b ↦ rw b (record { ticketed = a; sized = b })
      ])
    ];
  }

ruleset reading = (
  bind-Ends, ok-Ends, new_symbol_info-Named, int_of-Settles, float_of-Settles,
  utc_from_epoch-Settles, new_tick-IsTick, new_candle-IsCandle, new_position-IsPosition,
  new_order-IsOrder, new_deal-IsDeal,
)

module _ {F : Type 0} ⦃fl : Float F⦄ (c : Conversions F) (d : IsDocumented c) where
  pub position_of-Ends :
      (side : PositionSide) (x : Fields F) → Ends IsPosition Unread (position_of c side x)
  unfolding position_of
  position_of-Ends side x = search reading depth 14

  pub order_of-Ends : (x : Fields F) → Ends IsOrder Unread (order_of c x)
  unfolding order_of
  order_of-Ends x = search reading depth 16

  pub deal_of-Ends : (x : Fields F) → Ends IsDeal Unread (deal_of c x)
  unfolding deal_of
  deal_of-Ends x = search reading depth 18

  account_of-Ends : (x : Fields F) → Ends (λ a. Unit {0}) Unread (account_of c x)
  unfolding account_of
  account_of-Ends x = search reading depth 14

  terminal_of-Ends : (x : Fields F) → Ends (λ a. Unit {0}) Unread (terminal_of c x)
  unfolding terminal_of
  terminal_of-Ends x = search reading depth 8

  pub map_account_info-Ends :
      (raw : Raw F) → Ends (λ x. Unit {0}) DataError (map_account_info c raw)
  unfolding map_account_info
  map_account_info-Ends raw =
      bind-Ends (as_mapping-Settles "account_info" raw) (λ x. payload-Ends _ _ (account_of-Ends x))

  pub map_terminal_info-Ends :
      (raw : Raw F) → Ends (λ x. Unit {0}) DataError (map_terminal_info c raw)
  unfolding map_terminal_info
  map_terminal_info-Ends raw =
      bind-Ends (as_mapping-Settles "terminal_info" raw)
        (λ x. payload-Ends _ _ (terminal_of-Ends x))

module _ {F : Type 0} ⦃fl : Float F⦄ (quoted : String → String) (c : Conversions F)
    (d : IsDocumented c) where
  pub candle_of-Ends :
      (symbol : String) (timeframe : Timeframe) (x : Fields F)
      → Ends (IsCandle symbol timeframe) Unread (candle_of quoted c symbol timeframe x)
  unfolding candle_of
  candle_of-Ends symbol timeframe x = search reading depth 14

  pub tick_of-Ends :
      (symbol : String) (x : Fields F) → Ends (IsTick symbol) Unread (tick_of quoted c symbol x)
  unfolding tick_of
  tick_of-Ends symbol x =
      bind-Ends
        (utc_from_ms-Settles quoted c d (field_or x "time" (integer 0))
          (field_or x "time_msc" nothing))
        (λ time. search reading depth 12)

  pub symbol_info_of-Ends :
      (symbol : String) (x : Fields F)
      → Ends (λ y. is_blank y.symbol ≡ false) Unread (symbol_info_of quoted c symbol x)
  unfolding symbol_info_of
  symbol_info_of-Ends symbol x = search reading depth 16
