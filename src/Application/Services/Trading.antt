-- ===== src/Application/Services/Trading.antt =====
-- mt5_agent/application: position_service.py, order_service.py and account_service.py, over the ports
-- of domain/ports.py.
use llm_mt5_agent.Prelude.{length, ℕ, ◌-◌, ◌%◌, String, Option, none, some, List, map}
use llm_mt5_agent.Python.Step.{Step, pure, ◌>>=◌}
use llm_mt5_agent.Python.Float.{Float, Datetime}
use llm_mt5_agent.Domain.Account.{AccountInfo}
use llm_mt5_agent.Domain.Trading.{
  Position, Order, AccountState, Deal, floating, signed_volume, deal_net,
}

pub record Ports (F W : Type 0) : Type 0 where
  pub get_account_info : Step W (AccountInfo F)
  pub get_open_positions : Option String → Step W (List (Position F))
  pub get_pending_orders : Option String → Step W (List (Order F))
  -- `HistoryPort.get_deals`, if there is a history
  pub get_deals : Option (Datetime → Datetime → Step W (List (Deal F)))

-- `now.replace(hour=0, minute=0, second=0, microsecond=0)`
unfoldable pub start_of_day : Datetime → Datetime
start_of_day now = now - now % 86_400_000_000

module _ {F : Type 0} ⦃fl : Float F⦄ where
  -- The sums over positions that two services make.
  unfoldable pub exposure_volume : List (Position F) → F
  exposure_volume positions = fl.sum (map (λ p. p.volume) positions)

  unfoldable pub net_volume : List (Position F) → F
  net_volume positions = fl.sum (map signed_volume positions)

  unfoldable pub floating_profit : List (Position F) → F
  floating_profit positions = fl.sum (map floating positions)

module _ {F W : Type 0} ⦃fl : Float F⦄ (ports : Ports F W) where
  -- `PositionService.exposure_volume(symbol)`, `net_volume` and `floating_profit`
  unfoldable pub service_exposure : Option String → Step W F
  service_exposure symbol = do
    positions ← ports.get_open_positions symbol
    pure (exposure_volume positions)

  unfoldable pub service_net : Option String → Step W F
  service_net symbol = do positions ← ports.get_open_positions symbol; pure (net_volume positions)

  unfoldable pub service_floating : Option String → Step W F
  service_floating symbol = do
    positions ← ports.get_open_positions symbol
    pure (floating_profit positions)

  -- `OrderService.count(symbol)`
  unfoldable pub service_orders : Option String → Step W ℕ
  service_orders symbol = do orders ← ports.get_pending_orders symbol; pure (length orders)

  -- The realized profit of the day, which an account without a history does not know.
  unfoldable pub day_pnl_of :
      Option (Datetime → Datetime → Step W (List (Deal F))) → Datetime → Step W (Option F)
  day_pnl_of none now = pure none
  day_pnl_of (some get_deals) now = do
    deals ← get_deals (start_of_day now) now
    pure (some (fl.sum (map deal_net deals)))

  -- `AccountService.get_state(symbol)`
  unfoldable pub get_state : Option String → Datetime → Step W (AccountState F)
  get_state symbol now = do
    account ← ports.get_account_info
    positions ← ports.get_open_positions symbol
    orders ← ports.get_pending_orders symbol
    pnl ← day_pnl_of ports.get_deals now
    pure (record {
      account = account;
      open_positions = length positions;
      pending_orders = length orders;
      exposure_volume = exposure_volume positions;
      net_volume = net_volume positions;
      floating_profit = floating_profit positions;
      day_realized_pnl = pnl;
    })
