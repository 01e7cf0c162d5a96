-- ===== src/Infrastructure/Feed/Trading.antt =====
-- mt5_agent/infrastructure/mt5/trading_adapter.py
use llm_mt5_agent.Prelude.{
  ltb, if◌then◌else◌, filter, str_eq, strip, String, Bool, Option, none, some, List,
}
use llm_mt5_agent.Python.Step.{Step, pure, lift, ◌>>=◌, ◌>>◌}
use llm_mt5_agent.Python.Errors.{mt5_market_data_error, Result}
use llm_mt5_agent.Python.Float.{Float, Datetime}
use llm_mt5_agent.Domain.Trading.{Position, Order, Deal}
use llm_mt5_agent.Infrastructure.Mappers.{Rows, Conversions}
use llm_mt5_agent.Infrastructure.Mappers.Trading.{map_position, map_order, map_deal, map_many}
use llm_mt5_agent.Infrastructure.Feed.{Feed, fail, on_world, ensure_ready}

-- The functions of the module that the adapter calls, each of which may raise; `none` is a call without
-- the filter.
pub record TradingModule (F W : Type 0) : Type 0 where
  pub positions_get : Option String → Step W (Rows F)
  pub orders_get : Option String → Step W (Rows F)
  pub history_deals_get : Datetime → Datetime → Step W (Rows F)
  pub history_orders_get : Datetime → Datetime → Step W (Rows F)

-- `_clean_optional(symbol)`
unfoldable pub clean_optional : {S : Type 0} → Option String → Step S (Option String)
clean_optional none = pure none
clean_optional (some symbol) =
    if str_eq (strip symbol) ""
    then fail mt5_market_data_error "symbol filter must be non-empty"
    else pure (some (strip symbol))

-- `_check_range(date_from, date_to)`
unfoldable pub check_range : {S : Type 0} → Datetime → Datetime → Step S (Unit {0})
check_range date_from date_to =
    if ltb date_to date_from
    then fail mt5_market_data_error "date_to must be >= date_from"
    else pure tt

-- `[x for x in xs if x.symbol == name]` where there is a name
unfoldable pub only : {A : Type 0} → (A → String) → Option String → List A → List A
only symbol_of none xs = xs
only symbol_of (some name) xs = filter (λ x. str_eq (symbol_of x) name) xs

abbrev pub TradingFeed : Type 0 → Type 0 → Type 0
TradingFeed F W = Feed (TradingModule F W) W

module _ {F W : Type 0} ⦃fl : Float F⦄ (c : Conversions F) (connection : Option (Step W Bool))
    (load : Result (TradingModule F W)) where
  -- `get_open_positions(symbol)`
  unfoldable pub get_open_positions : Option String → Step (TradingFeed F W) (List (Position F))
  get_open_positions symbol = do
    mt5 ← ensure_ready connection load
    name ← clean_optional symbol
    raw ← on_world (mt5.positions_get name)
    lift (map_many "positions" (map_position c) raw)

  -- `get_pending_orders(symbol)`
  unfoldable pub get_pending_orders : Option String → Step (TradingFeed F W) (List (Order F))
  get_pending_orders symbol = do
    mt5 ← ensure_ready connection load
    name ← clean_optional symbol
    raw ← on_world (mt5.orders_get name)
    lift (map_many "orders" (map_order c "order") raw)

  -- `get_deals(date_from, date_to, symbol)`
  unfoldable pub get_deals :
      Datetime → Datetime → Option String → Step (TradingFeed F W) (List (Deal F))
  get_deals date_from date_to symbol = do
    mt5 ← ensure_ready connection load
    check_range date_from date_to
    raw ← on_world (mt5.history_deals_get date_from date_to)
    deals ← lift (map_many "deals" (map_deal c) raw)
    name ← clean_optional symbol
    pure (only (λ d. d.symbol) name deals)

  -- `get_history_orders(date_from, date_to, symbol)`
  unfoldable pub get_history_orders :
      Datetime → Datetime → Option String → Step (TradingFeed F W) (List (Order F))
  get_history_orders date_from date_to symbol = do
    mt5 ← ensure_ready connection load
    check_range date_from date_to
    raw ← on_world (mt5.history_orders_get date_from date_to)
    orders ← lift (map_many "history_orders" (map_order c "history_order") raw)
    name ← clean_optional symbol
    pure (only (λ o. o.symbol) name orders)
