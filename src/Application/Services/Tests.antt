-- ===== src/Application/Services/Tests.antt =====
-- The services on concrete values.
use llm_mt5_agent.Prelude.{
  All, lstrip, rstrip, strip, text_length, ℕ, ◌≡◌, refl, List, [], ◌∷◌, map,
}
use llm_mt5_agent.Python.Errors.{ok}
use llm_mt5_agent.Python.Decimal.{Decimal, decimal}
use llm_mt5_agent.Domain.Trading.{Deal}
use llm_mt5_agent.Samples.{dec, noon, quoted}
use llm_mt5_agent.Application.Services.Market.{clean, IsClean, clean-IsClean}
use llm_mt5_agent.Application.Services.History.{
  closed_results, grouped, add_deal, result_of, sorted_results, insert_result,
}
use llm_mt5_agent.Application.Services.History.Complete.{IsSummed}
use llm_mt5_agent.Application.Services.History.Summaries.{
  Ascends, Accounts, closed_results-Accounts,
}

clean_strips : clean quoted " EURUSD " ≡ ok "EURUSD"
unfolding clean strip lstrip rstrip text_length
clean_strips = refl

clean-IsClean_example : IsClean "EURUSD" × (clean quoted "EURUSD" ≡ ok "EURUSD")
clean-IsClean_example = clean-IsClean quoted " EURUSD " "EURUSD" clean_strips

abbrev deal : ℕ → ℕ → Deal Decimal
deal position profit = record {
  ticket = 1;
  order_ticket = 1;
  position_id = position;
  symbol = "EURUSD";
  deal_type = 0;
  entry = 0;
  volume = dec 1_000;
  price = dec 110_000;
  profit = dec profit;
  commission = dec 0;
  swap = dec 0;
  fee = dec 0;
  magic = 0;
  comment = "";
  time = noon;
}

-- Two positions, and a deal of none.
abbrev deals : List (Deal Decimal)
deals = deal 9 5 ∷ deal 4 1 ∷ deal 0 7 ∷ deal 9 2 ∷ []

two_positions : map (λ r. r.deals) (closed_results deals) ≡ 1 ∷ 2 ∷ []
unfolding closed_results grouped add_deal result_of sorted_results insert_result
two_positions = refl

closed_results-Accounts_example :
    Ascends (closed_results deals)
    × All (Accounts deals) (closed_results deals)
    × All (IsSummed (closed_results deals)) deals
closed_results-Accounts_example = closed_results-Accounts deals
