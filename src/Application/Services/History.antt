-- ===== src/Application/Services/History.antt =====
-- mt5_agent/application/history_service.py, over the port of domain/ports.py.
pub mod Closed
pub mod Complete
pub mod Summaries
use llm_mt5_agent.Prelude.{
  ltb, leb, ◌==◌, if◌then◌else◌, length, filter, str_ℕ, ℕ, ◌-◌, ◌*◌, String, ◌<>◌, not, ◌||◌,
  Option, List, [], ◌∷◌, ◌++◌, map,
}
use llm_mt5_agent.Python.Step.{Step, lift, ◌>>=◌, ◌>>◌}
use llm_mt5_agent.Python.Errors.{mt5_market_data_error, Exception, Result, ok, raise}
use llm_mt5_agent.Python.Float.{Float, Datetime}
use llm_mt5_agent.Domain.Trading.{Order, Deal, TradeResult, deal_net}

pub record HistoryPort (F W : Type 0) : Type 0 where
  pub get_deals : Datetime → Datetime → Option String → Step W (List (Deal F))
  pub get_history_orders : Datetime → Datetime → Option String → Step W (List (Order F))

abbrev range_exception : String → Exception
range_exception message = record { class = mt5_market_data_error; message = message }

-- `_check_range(date_from, date_to)`
unfoldable pub check_range : Datetime → Datetime → Result (Unit {0})
check_range start end_ =
    if ltb end_ start then raise (range_exception "date_to must be >= date_from") else ok tt

module _ {F W : Type 0} (port : HistoryPort F W) where
  unfoldable pub deals_between : Datetime → Datetime → Option String → Step W (List (Deal F))
  deals_between start end_ symbol = do
    lift (check_range start end_)
    port.get_deals start end_ symbol

  unfoldable pub orders_between : Datetime → Datetime → Option String → Step W (List (Order F))
  orders_between start end_ symbol = do
    lift (check_range start end_)
    port.get_history_orders start end_ symbol

  -- `recent_deals(days, symbol)`
  unfoldable pub recent_deals : ℕ → Option String → Datetime → Step W (List (Deal F))
  recent_deals days symbol now =
      if ltb days 1 || ltb 3650 days
      then lift (raise (range_exception ("days must be 1..3650, got " <> str_ℕ days)))
      else deals_between (now - days * 86_400_000_000) now symbol

-- One entry of `buckets`: the deals of a position, of which there is at least one.
pub record Bucket (F : Type 0) : Type 0 where
  pub position_id : ℕ
  pub first : Deal F
  pub rest : List (Deal F)

module _ {F : Type 0} where
  abbrev pub bucket_deals : Bucket F → List (Deal F)
  bucket_deals b = b.first ∷ b.rest

  -- `buckets.setdefault(deal.position_id, []).append(deal)`
  unfoldable pub add_deal : Deal F → List (Bucket F) → List (Bucket F)
  add_deal d [] = record { position_id = d.position_id; first = d; rest = [] } ∷ []
  add_deal d (b ∷ bs) =
      let later = add_deal d bs in
      if b.position_id == d.position_id
      then record b { rest = b.rest ++ (d ∷ []) } ∷ bs
      else b ∷ later

  unfoldable pub grouped : List (Bucket F) → List (Deal F) → List (Bucket F)
  grouped bs [] = bs
  grouped bs (d ∷ ds) = grouped (add_deal d bs) ds

  -- `sorted(results, key=lambda r: r.position_id)`
  unfoldable pub insert_result : TradeResult F → List (TradeResult F) → List (TradeResult F)
  insert_result r [] = r ∷ []
  insert_result r (x ∷ xs) =
      let later = insert_result r xs in
      if leb r.position_id x.position_id then r ∷ x ∷ xs else x ∷ later

  unfoldable pub sorted_results : List (TradeResult F) → List (TradeResult F)
  sorted_results [] = []
  sorted_results (r ∷ rs) = insert_result r (sorted_results rs)

module _ {F : Type 0} ⦃fl : Float F⦄ where
  -- `realized_profit(deals)`
  unfoldable pub realized_profit : List (Deal F) → F
  realized_profit deals = fl.sum (map deal_net deals)

  unfoldable pub result_of : Bucket F → TradeResult F
  result_of b = record {
    position_id = b.position_id;
    symbol = b.first.symbol;
    volume = fl.sum (map (λ d. d.volume) (bucket_deals b));
    profit = fl.sum (map (λ d. d.profit) (bucket_deals b));
    commission = fl.sum (map (λ d. d.commission) (bucket_deals b));
    swap = fl.sum (map (λ d. d.swap) (bucket_deals b));
    fee = fl.sum (map (λ d. d.fee) (bucket_deals b));
    deals = length (bucket_deals b);
  }

  -- `closed_results(deals)`
  unfoldable pub closed_results : List (Deal F) → List (TradeResult F)
  closed_results deals =
      sorted_results (map result_of (filter (λ b. not (b.position_id == 0)) (grouped [] deals)))
