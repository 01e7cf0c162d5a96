-- ===== src/Domain/Trading.antt =====
-- mt5_agent/domain/trading.py
use llm_mt5_agent.Prelude.{
  ℕ, String, is_blank, Bool, true, false, Option, none, some, ◌||◌, ◌==◌, if◌then◌else◌,
}
use llm_mt5_agent.Python.Errors.{Result, ok, raise_if, ◌>>◌}
use llm_mt5_agent.Python.Float.{Float, ◌<?◌, ◌≤?◌, lit, Datetime}
use llm_mt5_agent.Domain.Account.{AccountInfo}

pub data PositionSide : Type 0 where
  buy sell : PositionSide

abbrev pub side_eq : PositionSide → PositionSide → Bool
side_eq buy buy = true
side_eq sell sell = true
side_eq _ _ = false

-- `side.name`
unfoldable pub side_name : PositionSide → String
side_name buy = "BUY"
side_name sell = "SELL"

pub record Position (F : Type 0) : Type 0 where
  pub ticket : ℕ
  pub symbol : String
  pub side : PositionSide
  pub volume : F
  pub price_open : F
  pub price_current : F
  pub profit : F
  pub swap : F
  pub stop_loss : F
  pub take_profit : F
  pub magic : ℕ
  pub comment : String
  pub time : Datetime

pub record Order (F : Type 0) : Type 0 where
  pub ticket : ℕ
  pub symbol : String
  pub order_type : ℕ
  pub volume_current : F
  pub volume_initial : F
  pub price_open : F
  pub stop_loss : F
  pub take_profit : F
  pub price_current : F
  pub magic : ℕ
  pub comment : String
  pub time_setup : Datetime
  pub state : ℕ

pub record AccountState (F : Type 0) : Type 0 where
  pub account : AccountInfo F
  pub open_positions : ℕ
  pub pending_orders : ℕ
  pub exposure_volume : F
  pub net_volume : F
  pub floating_profit : F
  pub day_realized_pnl : Option F

pub record Deal (F : Type 0) : Type 0 where
  pub ticket : ℕ
  pub order_ticket : ℕ
  pub position_id : ℕ
  pub symbol : String
  pub deal_type : ℕ
  pub entry : ℕ
  pub volume : F
  pub price : F
  pub profit : F
  pub commission : F
  pub swap : F
  pub fee : F
  pub magic : ℕ
  pub comment : String
  pub time : Datetime

pub record TradeResult (F : Type 0) : Type 0 where
  pub position_id : ℕ
  pub symbol : String
  pub volume : F
  pub profit : F
  pub commission : F
  pub swap : F
  pub fee : F
  pub deals : ℕ

module _ {F : Type 0} ⦃fl : Float F⦄ where
  unfoldable pub new_position : Position F → Result (Position F)
  new_position p = do
    raise_if (p.ticket == 0) "ticket must be positive"
    raise_if (is_blank p.symbol) "symbol must be non-empty"
    raise_if (p.volume ≤? lit 0) "volume must be positive"
    ok p

  unfoldable pub floating : Position F → F
  floating p = fl.add p.profit p.swap

  unfoldable pub signed_volume : Position F → F
  signed_volume p = if side_eq p.side buy then p.volume else fl.neg p.volume

  unfoldable pub new_order : Order F → Result (Order F)
  new_order o = do
    raise_if (o.ticket == 0) "ticket must be positive"
    raise_if (is_blank o.symbol) "symbol must be non-empty"
    raise_if (o.volume_initial <? lit 0 || o.volume_current <? lit 0) "volumes must be non-negative"
    ok o

  -- `account.margin_level`
  unfoldable pub margin_level : AccountState F → Option F
  margin_level s =
      if lit 0 <? s.account.margin
      then some (fl.mul (fl.div s.account.equity s.account.margin) (lit 100))
      else none

  unfoldable pub new_deal : Deal F → Result (Deal F)
  new_deal d = do
    raise_if (d.ticket == 0) "ticket must be positive"
    raise_if (d.volume <? lit 0) "volume must be non-negative"
    ok d

  -- `deal.net`
  unfoldable pub deal_net : Deal F → F
  deal_net d = fl.add (fl.add (fl.add d.profit d.commission) d.swap) d.fee
