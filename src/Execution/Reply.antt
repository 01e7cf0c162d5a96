-- ===== src/Execution/Reply.antt =====
-- mt5_agent/execution/executor.py: how replies of the terminal are read, and the request payload.
use llm_mt5_agent.Prelude.{
  ℕ, String, ◌<>◌, str_ℕ, take_chars, Bool, false, ◌||◌, Option, none, some, ◌==◌, if◌then◌else◌,
}
use llm_mt5_agent.Domain.Planning.{buy, action_eq}
use llm_mt5_agent.Domain.Execution.{OrderRequest}
use llm_mt5_agent.Execution.Session.{Payload, TradeReply, Terminal}

abbrev pub trade_mode_real : ℕ
trade_mode_real = 2

abbrev pub retcode_done : ℕ
retcode_done = 10009

abbrev pub retcode_done_partial : ℕ
retcode_done_partial = 10010

-- `x or None` for an integer that may be missing
abbrev pub nonzero : Option ℕ → Option ℕ
nonzero none = none
nonzero (some n) = if n == 0 then none else some n

abbrev pub or_zero : Option ℕ → ℕ
or_zero none = 0
or_zero (some n) = n

abbrev pub text_or : Option String → String → String
text_or none default = default
text_or (some s) default = s

-- `str(getattr(reply, "retcode", "none"))`
unfoldable pub retcode_text : {F : Type 0} → Option (TradeReply F) → String
retcode_text none = "none"
retcode_text (some r) = elim r.retcode [ none ↦ "none" | some n ↦ str_ℕ n ]

-- `getattr(reply, "comment", last)`
unfoldable pub comment_or : {F : Type 0} → Option (TradeReply F) → String → String
comment_or none last = last
comment_or (some r) last = text_or r.comment last

-- `checked is not None and retcode == RETCODE_DONE`
unfoldable pub is_checked : {F : Type 0} → Option (TradeReply F) → Bool
is_checked none = false
is_checked (some r) = elim r.retcode [ none ↦ false | some n ↦ n == retcode_done ]

-- `result` of `order_send` where it is accepted
unfoldable pub accepted : {F : Type 0} → Option (TradeReply F) → Option (TradeReply F)
accepted none = none
accepted (some r) = elim r.retcode [
  | none ↦ none
  | some n ↦ if n == retcode_done || n == retcode_done_partial then some r else none
]

-- `self._payload(mt5, request, price)`.
unfoldable pub payload : {F W : Type 0} → Terminal F W → OrderRequest F → F → Payload F
payload mt5 request price = record {
  action = mt5.trade_action_deal;
  symbol = request.symbol;
  volume = request.volume;
  order_type = if action_eq request.action buy then mt5.order_type_buy else mt5.order_type_sell;
  price = price;
  sl = request.stop_loss;
  tp = request.take_profit;
  deviation = request.deviation;
  magic = request.magic;
  comment = "llm-mt5-agent:" <> take_chars 8 request.client_id;
  type_time = mt5.order_time_gtc;
  type_filling = mt5.order_filling_ioc;
}
