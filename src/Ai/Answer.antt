-- ===== src/Ai/Answer.antt =====
-- mt5_agent/ai/planner.py: `validate_proposal`, which turns the answer of a model into a
-- proposal or raises.
pub mod Sound
use llm_mt5_agent.Prelude.{
  zero, pos, String, ◌<>◌, str_eq, is_blank, Bool, true, false, not, ◌&&◌, Option, none, some, List,
  [], ◌∷◌, if◌then◌else◌,
}
use llm_mt5_agent.Python.Errors.{
  is_conversion_error, Exception, ExceptionClass, Result, ok, raise, raise_if, value_error,
  type_error,
}
use llm_mt5_agent.Python.Bind.{◌>>=◌, ◌>>◌}
use llm_mt5_agent.Python.Float.{Float, ◌<?◌, ◌≤?◌, lit, Datetime}
use llm_mt5_agent.Domain.Strategy.{direction_value, Setup}
use llm_mt5_agent.Domain.Planning.{
  TradeAction, buy, sell, hold, action_value, PlannerInput, TradeProposal, new_trade_proposal,
}
use llm_mt5_agent.Ai.Json.{
  Json, null, boolean, integer, number, text, object, no_item, Members, no_member, get, Builtins,
  to_float,
}

-- `TradeAction(name)`
unfoldable pub parse_action : String → Option TradeAction
parse_action name =
    if str_eq name "BUY"
    then some buy
    else if str_eq name "SELL"
    then some sell
    else if str_eq name "HOLD"
    then some hold
    else none

abbrev pub value_error_of : String → Exception
value_error_of message = record { class = value_error; message = message }

-- `float(value)` with the handler of `_opt_float` and `_req_float`
unfoldable pub converted : {F : Type 0} → String → Result F → Result F
converted name (ok x) = ok x
converted name (raise e) =
    if is_conversion_error e.class
    then raise (value_error_of (name <> " must be a number"))
    else raise e

-- `data.get("rationale", "") or ""` before `str`
unfoldable pub truthy : {F : Type 0} ⦃fl : Float F⦄ → Json F → Bool
truthy null = false
truthy (boolean v) = v
truthy (integer (pos zero)) = false
truthy (integer _) = true
truthy ⦃fl⦄ (number x) = not (fl.eq x (lit 0))
truthy (text s) = not (str_eq s "")
truthy (Json.array no_item) = false
truthy (Json.array _) = true
truthy (object no_member) = false
truthy (object _) = true

-- `_first_setup(planner_input)`
unfoldable pub first_setup : {F : Type 0} → List (Setup F) → String
first_setup [] = ""
first_setup (s ∷ rest) = s.identifier

-- The keyword arguments of `validate_proposal`, and the clock of the default `created_at`.
pub record Origin (F : Type 0) : Type 0 where
  pub provider : String
  pub model : String
  pub latency_ms : F
  pub clock : Datetime

-- The values that `validate_proposal` has read when it turns to the action.
pub record Answer (F : Type 0) : Type 0 where
  pub entry : Option F
  pub stop_loss : Option F
  pub take_profit : Option F
  pub risk_pct : F
  pub volume : Option F
  pub confidence : F
  pub rationale : String

abbrev pub expected_direction : TradeAction → String
expected_direction buy = "LONG"
expected_direction _ = "SHORT"

abbrev pub order_message : TradeAction → String
order_message buy = "BUY requires stop_loss < entry < take_profit"
order_message _ = "SELL requires take_profit < entry < stop_loss"

module _ {F : Type 0} ⦃fl : Float F⦄ where
  -- `_opt_float(value, name)`
  unfoldable pub opt_float : Builtins F → Json F → String → Result (Option F)
  opt_float b null name = ok none
  opt_float b value name = do
    x ← converted name (to_float b value)
    raise_if (x ≤? lit 0) (name <> " must be positive")
    ok (some x)

  -- `_req_float(value, name)`
  unfoldable pub req_float : Builtins F → Json F → String → Result F
  req_float b value name = converted name (to_float b value)

  -- `_clamp01(value)`
  unfoldable pub clamp01 : F → Result F
  clamp01 x = do raise_if (not (lit 0 ≤? x && x ≤? lit 1)) "confidence must be 0..1"; ok x

  -- `_check_risk(value)`
  unfoldable pub check_risk : F → Result F
  check_risk x = do raise_if (not (lit 0 ≤? x && x ≤? lit 100)) "risk_pct must be 0..100"; ok x

  -- `str(data.get("rationale", "") or "")`
  unfoldable pub rationale_of : Builtins F → Json F → String
  rationale_of b value = if truthy value then b.str value else ""

  unfoldable pub read_answer : Builtins F → Members F → Result (Answer F)
  read_answer b data_ = do
    entry ← opt_float b (get data_ "entry" null) "entry"
    stop_loss ← opt_float b (get data_ "stop_loss" null) "stop_loss"
    take_profit ← opt_float b (get data_ "take_profit" null) "take_profit"
    risk_pct ← req_float b (get data_ "risk_pct" (number (lit 0))) "risk_pct"
    volume ← opt_float b (get data_ "volume" null) "volume"
    confidence ← req_float b (get data_ "confidence" (number (lit 0))) "confidence"
    ok (record {
      entry = entry;
      stop_loss = stop_loss;
      take_profit = take_profit;
      risk_pct = risk_pct;
      volume = volume;
      confidence = confidence;
      rationale = rationale_of b (get data_ "rationale" (text ""));
    })

  -- The branch of HOLD.
  unfoldable pub hold_answer : PlannerInput F → Origin F → Answer F → Result (TradeProposal F)
  hold_answer i o a = do
    confidence ← clamp01 a.confidence
    risk_pct ← check_risk a.risk_pct
    new_trade_proposal (record {
      action = hold;
      symbol = i.symbol;
      confidence = confidence;
      rationale = if str_eq a.rationale "" then "LLM chose HOLD." else a.rationale;
      strategy = i.signal.strategy;
      setup_id = first_setup i.signal.setups;
      entry = none;
      stop_loss = none;
      take_profit = none;
      risk_pct = risk_pct;
      volume = none;
      provider = o.provider;
      model = o.model;
      latency_ms = o.latency_ms;
      created_at = o.clock;
    })

  -- The order of the prices of a BUY or a SELL is violated.
  abbrev pub disordered : TradeAction → F → F → F → Bool
  disordered buy entry stop_loss take_profit = not (stop_loss <? entry && entry <? take_profit)
  disordered sell entry stop_loss take_profit = not (take_profit <? entry && entry <? stop_loss)
  disordered hold entry stop_loss take_profit = false

  -- `entry` where it is not `None`
  unfoldable pub required : Option F → String → Result F
  required (some x) message = ok x
  required none message = raise (value_error_of message)

  -- The branch of BUY and SELL.
  unfoldable pub directional_answer :
      TradeAction → PlannerInput F → Origin F → Answer F → Result (TradeProposal F)
  directional_answer action i o a = do
    let direction = direction_value i.signal.direction
    raise_if (not (str_eq direction (expected_direction action))) (
        action_value action
        <> (" requires deterministic signal direction "
            <> (expected_direction action <> ("; received " <> direction))))
    entry ← required a.entry "directional proposals require entry"
    stop_loss ← required a.stop_loss "directional proposals require stop_loss and take_profit"
    take_profit ← required a.take_profit "directional proposals require stop_loss and take_profit"
    raise_if (disordered action entry stop_loss take_profit) (order_message action)
    raise_if (is_blank a.rationale) "rationale must be non-empty"
    confidence ← clamp01 a.confidence
    risk_pct ← check_risk a.risk_pct
    new_trade_proposal (record {
      action = action;
      symbol = i.symbol;
      confidence = confidence;
      rationale = a.rationale;
      strategy = i.signal.strategy;
      setup_id = first_setup i.signal.setups;
      entry = some entry;
      stop_loss = some stop_loss;
      take_profit = some take_profit;
      risk_pct = risk_pct;
      volume = a.volume;
      provider = o.provider;
      model = o.model;
      latency_ms = o.latency_ms;
      created_at = o.clock;
    })

  unfoldable pub by_action :
      TradeAction → PlannerInput F → Origin F → Answer F → Result (TradeProposal F)
  by_action hold i o a = hold_answer i o a
  by_action action i o a = directional_answer action i o a

  -- `try: action = TradeAction(...)`
  unfoldable pub read_action : Builtins F → Members F → Result TradeAction
  read_action b data_ = elim (parse_action (b.upper (b.str (get data_ "action" (text ""))))) [
    | none ↦ raise (value_error_of ("invalid action: " <> b.repr (get data_ "action" null)))
    | some action ↦ ok action
  ]

  -- `validate_proposal(data, planner_input, provider=..., model=..., latency_ms=...)`
  unfoldable pub validate_proposal :
      Builtins F → Members F → PlannerInput F → Origin F → Result (TradeProposal F)
  validate_proposal b data_ i o = do
    action ← read_action b data_
    answer ← read_answer b data_
    by_action action i o answer
