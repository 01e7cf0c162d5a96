-- ===== src/Infrastructure/Mappers/Trading.antt =====
-- mt5_agent/infrastructure/mt5/trading_mappers.py
use llm_mt5_agent.Prelude.{◌==◌, if◌then◌else◌, str_ℕ, ℕ, String, ◌<>◌, Bool, true, false, List, []}
use llm_mt5_agent.Python.Bind.{◌>>=◌}
use llm_mt5_agent.Python.Errors.{ExceptionClass, value_error, Result, ok, raise}
use llm_mt5_agent.Python.Float.{Float}
use llm_mt5_agent.Domain.Trading.{
  PositionSide, Position, Order, Deal, new_position, new_order, new_deal,
}
use llm_mt5_agent.Infrastructure.Mappers.{
  nothing, integer, Fields, Raw, Rows, no_rows, not_iterable, rows, Conversions, data_error,
  as_mapping, field_or, payload, int_field, float_field, str_field, utc_from_epoch, map_rows,
}

-- `PositionSide(n)`
unfoldable pub side_of_type : ℕ → Result PositionSide
side_of_type n =
    if n == 0
    then ok PositionSide.buy
    else if n == 1
    then ok PositionSide.sell
    else raise (record { class = value_error; message = str_ℕ n <> " is not a valid PositionSide" })

-- `except ValueError`
abbrev pub is_value_error : ExceptionClass → Bool
is_value_error value_error = true
is_value_error _ = false

unfoldable pub side_or_error : String → Result PositionSide → Result PositionSide
side_or_error shown (ok side) = ok side
side_or_error shown (raise e) =
    if is_value_error e.class
    then data_error ("Unknown position type " <> (shown <> (": " <> e.message)))
    else raise e

module _ {F : Type 0} ⦃fl : Float F⦄ (c : Conversions F) where
  -- `PositionSide(int(data.get("type", 0)))`, with its handler
  unfoldable pub read_side : Fields F → Result PositionSide
  read_side d =
      side_or_error (c.repr (field_or d "type" nothing))
        (c.to_int (field_or d "type" (integer 0)) >>= side_of_type)

  unfoldable pub position_of : PositionSide → Fields F → Result (Position F)
  position_of side d = do
    ticket ← int_field c d "ticket"
    volume ← float_field c d "volume"
    price_open ← float_field c d "price_open"
    price_current ← float_field c d "price_current"
    profit ← float_field c d "profit"
    swap ← float_field c d "swap"
    stop_loss ← float_field c d "sl"
    take_profit ← float_field c d "tp"
    magic ← int_field c d "magic"
    time ← utc_from_epoch c (field_or d "time" (integer 0))
    new_position (record {
      ticket = ticket;
      symbol = str_field c d "symbol";
      side = side;
      volume = volume;
      price_open = price_open;
      price_current = price_current;
      profit = profit;
      swap = swap;
      stop_loss = stop_loss;
      take_profit = take_profit;
      magic = magic;
      comment = str_field c d "comment";
      time = time;
    })

  -- `map_position(raw)`
  unfoldable pub map_position : Raw F → Result (Position F)
  map_position raw = do
    d ← as_mapping "position" raw
    side ← read_side d
    payload "Invalid position payload" (position_of side d)

  unfoldable pub order_of : Fields F → Result (Order F)
  order_of d = do
    ticket ← int_field c d "ticket"
    order_type ← int_field c d "type"
    volume_current ← float_field c d "volume_current"
    volume_initial ← float_field c d "volume_initial"
    price_open ← float_field c d "price_open"
    stop_loss ← float_field c d "sl"
    take_profit ← float_field c d "tp"
    price_current ← float_field c d "price_current"
    magic ← int_field c d "magic"
    time_setup ← utc_from_epoch c (field_or d "time_setup" (field_or d "time_done" (integer 0)))
    state ← int_field c d "state"
    new_order (record {
      ticket = ticket;
      symbol = str_field c d "symbol";
      order_type = order_type;
      volume_current = volume_current;
      volume_initial = volume_initial;
      price_open = price_open;
      stop_loss = stop_loss;
      take_profit = take_profit;
      price_current = price_current;
      magic = magic;
      comment = str_field c d "comment";
      time_setup = time_setup;
      state = state;
    })

  -- `map_order(raw, what=what)`
  unfoldable pub map_order : String → Raw F → Result (Order F)
  map_order what raw = do
    d ← as_mapping what raw
    payload ("Invalid " <> (what <> " payload")) (order_of d)

  unfoldable pub deal_of : Fields F → Result (Deal F)
  deal_of d = do
    ticket ← int_field c d "ticket"
    order_ticket ← int_field c d "order_ticket"
    position_id ← int_field c d "position_id"
    deal_type ← int_field c d "type"
    entry ← int_field c d "entry"
    volume ← float_field c d "volume"
    price ← float_field c d "price"
    profit ← float_field c d "profit"
    commission ← float_field c d "commission"
    swap ← float_field c d "swap"
    fee ← float_field c d "fee"
    magic ← int_field c d "magic"
    time ← utc_from_epoch c (field_or d "time" (integer 0))
    new_deal (record {
      ticket = ticket;
      order_ticket = order_ticket;
      position_id = position_id;
      symbol = str_field c d "symbol";
      deal_type = deal_type;
      entry = entry;
      volume = volume;
      price = price;
      profit = profit;
      commission = commission;
      swap = swap;
      fee = fee;
      magic = magic;
      comment = str_field c d "comment";
      time = time;
    })

  -- `map_deal(raw)`
  unfoldable pub map_deal : Raw F → Result (Deal F)
  map_deal raw = do d ← as_mapping "deal" raw; payload "Invalid deal payload" (deal_of d)

-- `map_many(rows, mapper, what=what)`
unfoldable pub map_many : {F A : Type 0} → String → (Raw F → Result A) → Rows F → Result (List A)
map_many what mapper no_rows = ok []
map_many what mapper not_iterable = data_error ("Invalid " <> (what <> " payload"))
map_many what mapper (rows items) = map_rows mapper items
