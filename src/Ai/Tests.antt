-- ===== src/Ai/Tests.antt =====
-- Runs of the planner on the answers of a model, and the theorems at those inputs.
use llm_mt5_agent.Prelude.{
  ◌≡◌, refl, String, Option, none, some, [], ◌∷◌, is_blank, pos, ◌*ℤ◌, ◌-ℤ◌, ◌+ℤ◌,
}
use llm_mt5_agent.Python.Errors.{Result, ok, raise, llm_timeout_error}
use llm_mt5_agent.Python.Bind.{◌>>=◌, Returns}
use llm_mt5_agent.Python.Decimal.{Decimal, decimal, units, nan, decimal-HasLiterals}
use llm_mt5_agent.Domain.Market.{Timeframe}
use llm_mt5_agent.Domain.Strategy.{Direction, direction_value, StrategySignal}
use llm_mt5_agent.Domain.Planning.{PlannerInput, TradeProposal, new_trade_proposal}
use llm_mt5_agent.Ai.Json.{Json, text, number, null, Members, members, get, Builtins, to_float}
use llm_mt5_agent.Ai.Llm.{LlmProvider}
use llm_mt5_agent.Ai.Answer.{
  parse_action, converted, truthy, first_setup, Origin, opt_float, req_float, clamp01, check_risk,
  rationale_of, read_answer, required, directional_answer, by_action, read_action,
  validate_proposal,
}
use llm_mt5_agent.Ai.Answer.Sound.{Sound, validate_proposal-Sound}
use llm_mt5_agent.Ai.Planner.{plan}
use llm_mt5_agent.Ai.Planner.Total.{Proposes, plan-Proposes}
use llm_mt5_agent.Samples.{dec, noon, quoted}

-- Builtins that read what the tests print: texts and small integers.
abbrev printed : Json Decimal → String
printed (text s) = s
printed _ = "?"

abbrev builtins : Builtins Decimal
builtins = record {
  float_int = λ n. ok (units (n *ℤ pos 100_000));
  str = printed;
  repr = printed;
  upper = λ s. s;
  dumps = λ _. "{}";
  isoformat = λ _. "";
}

abbrev signal : StrategySignal Decimal
signal = record {
  strategy = "measure_move";
  symbol = "EURUSD";
  timeframe = Timeframe.h1;
  direction = Direction.long;
  confidence = dec 60_000;
  setups = [];
  facts = [];
  rationale = "up";
  generated_at = noon;
}

abbrev input : PlannerInput Decimal
input = record {
  symbol = "EURUSD";
  timeframe = Timeframe.h1;
  snapshot = record {
    symbol = "EURUSD";
    timeframe = Timeframe.h1;
    fetched_at = noon;
    candles = [];
    tick = none;
    symbol_info = none;
  };
  signal = signal;
  account = none;
  open_positions = [];
  memory = [];
}

-- A BUY of the given volume.
abbrev answer : Json Decimal → Members Decimal
answer volume = members (
    ("action", text "BUY")
    ∷ ("entry", number (dec 110_000))
    ∷ ("stop_loss", number (dec 109_000))
    ∷ ("take_profit", number (dec 112_000))
    ∷ ("risk_pct", number (dec 50_000))
    ∷ ("volume", volume)
    ∷ ("confidence", number (dec 60_000))
    ∷ ("rationale", text "structure break")
    ∷ [])

abbrev origin : Origin Decimal
origin = record { provider = "stub"; model = "stub"; latency_ms = dec 0; clock = noon }

abbrev volume_of : Result (TradeProposal Decimal) → Option Decimal
volume_of (ok p) = p.volume
volume_of (raise e) = none

-- The answer's volume may be NaN: it is not at most 0.
nan_volume : volume_of (validate_proposal builtins (answer (text "nan")) input origin) ≡ some nan
unfolding validate_proposal read_action read_answer by_action directional_answer required opt_float
    req_float converted clamp01 check_risk rationale_of truthy first_setup parse_action get to_float
    direction_value new_trade_proposal ◌>>=◌ is_blank ◌*ℤ◌ ◌-ℤ◌ ◌+ℤ◌
nan_volume = refl

validate_proposal-Sound_example :
    Returns (Sound input) (validate_proposal builtins (answer null) input origin)
validate_proposal-Sound_example = validate_proposal-Sound builtins (answer null) input origin

-- A provider that always times out.
abbrev slow : LlmProvider Decimal
slow = record {
  name = "stub";
  model = "stub";
  generate = λ _. raise (record { class = llm_timeout_error; message = "timeout" });
}

plan-Proposes_example : Proposes input (plan builtins slow "llm_planner" quoted "system" input noon)
unfolding is_blank
plan-Proposes_example =
    plan-Proposes decimal-HasLiterals builtins slow "llm_planner" quoted "system" input noon refl
      refl (λ _. refl)
