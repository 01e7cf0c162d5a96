-- ===== src/Infrastructure/Mappers/Account.antt =====
-- mt5_agent/infrastructure/mt5/mappers.py
use llm_mt5_agent.Prelude.{ℕ, String, Bool, false, List, [], ◌∷◌}
use llm_mt5_agent.Python.Bind.{◌>>=◌}
use llm_mt5_agent.Python.Errors.{Result, ok}
use llm_mt5_agent.Python.Float.{Float, lit}
use llm_mt5_agent.Domain.Account.{AccountInfo}
use llm_mt5_agent.Domain.Terminal.{TerminalInfo}
use llm_mt5_agent.Infrastructure.Mappers.{
  integer, number, boolean, text, Fields, Raw, Conversions, as_mapping, first_field, payload,
  truthy, int_of, float_of, str_of,
}

module _ {F : Type 0} ⦃fl : Float F⦄ (c : Conversions F) where
  -- `int(_get(data, *names, default=0) or 0)` and the like
  abbrev pub int_named : Fields F → List String → Result ℕ
  int_named d names = int_of c (first_field d names (integer 0))

  abbrev pub float_named : Fields F → List String → Result F
  float_named d names = float_of c (first_field d names (number (lit 0)))

  abbrev pub str_named : Fields F → String → String
  str_named d name = str_of c (first_field d (name ∷ []) (text ""))

  abbrev pub bool_named : Fields F → String → Bool
  bool_named d name = truthy c (first_field d (name ∷ []) (boolean false))

  -- `AccountInfo(...)`, its arguments in order
  unfoldable pub account_of : Fields F → Result (AccountInfo F)
  account_of d = do
    login ← int_named d ("login" ∷ [])
    balance ← float_named d ("balance" ∷ [])
    equity ← float_named d ("equity" ∷ [])
    margin ← float_named d ("margin" ∷ [])
    free_margin ← float_named d ("margin_free" ∷ "free_margin" ∷ [])
    profit ← float_named d ("profit" ∷ [])
    leverage ← int_named d ("leverage" ∷ [])
    trade_mode ← int_named d ("trade_mode" ∷ [])
    ok (record {
      login = login;
      server = str_named d "server";
      currency = str_named d "currency";
      balance = balance;
      equity = equity;
      margin = margin;
      free_margin = free_margin;
      profit = profit;
      leverage = leverage;
      trade_allowed = bool_named d "trade_allowed";
      trade_mode = trade_mode;
      name = str_named d "name";
    })

  -- `map_account_info(raw)`
  unfoldable pub map_account_info : Raw F → Result (AccountInfo F)
  map_account_info raw = do
    d ← as_mapping "account_info" raw
    payload "Invalid account_info payload" (account_of d)

  unfoldable pub terminal_of : Fields F → Result TerminalInfo
  terminal_of d = do
    build ← int_named d ("build" ∷ [])
    max_bars ← int_named d ("maxbars" ∷ "max_bars" ∷ [])
    ok (record {
      company = str_named d "company";
      name = str_named d "name";
      path = str_named d "path";
      trade_allowed = bool_named d "trade_allowed";
      connected = bool_named d "connected";
      build = build;
      max_bars = max_bars;
    })

  -- `map_terminal_info(raw)`
  unfoldable pub map_terminal_info : Raw F → Result TerminalInfo
  map_terminal_info raw = do
    d ← as_mapping "terminal_info" raw
    payload "Invalid terminal_info payload" (terminal_of d)
