-- ===== src/Risk/Config.antt =====
-- mt5_agent/risk/config.py
use llm_mt5_agent.Prelude.{
  ℕ, String, Bool, false, not, Option, none, some, List, ◌&&◌, ◌||◌, ltb, leb, ◌==◌, is_empty,
  if◌then◌else◌,
}
use llm_mt5_agent.Python.Errors.{Result, ok, raise_if, ◌>>◌}
use llm_mt5_agent.Python.Float.{Float, ◌<?◌, ◌≤?◌, lit}

pub record TradingSession : Type 0 where
  pub start_hour : ℕ
  pub end_hour : ℕ

unfoldable pub new_trading_session : TradingSession → Result TradingSession
new_trading_session s = do
  raise_if (not (leb s.start_hour 24) || not (leb s.end_hour 24)) "session hours must be 0..24"
  raise_if (s.start_hour == s.end_hour) "zero-length session"
  ok s

-- `session.contains(hour)`
unfoldable pub contains : TradingSession → ℕ → Bool
contains s hour =
    if ltb s.start_hour s.end_hour
    then leb s.start_hour hour && ltb hour s.end_hour
    else leb s.start_hour hour || ltb hour s.end_hour

pub record RiskConfig (F : Type 0) : Type 0 where
  pub max_risk_pct_per_trade : F
  pub max_daily_loss_pct : F
  pub max_open_positions : ℕ
  pub max_exposure_volume : F
  pub allowed_symbols : Option (List String)
  pub allowed_sessions : List TradingSession
  pub max_spread_points : Option F
  pub require_stop_loss : Bool
  pub require_take_profit : Bool
  pub min_stop_points : F
  pub duplicate_window_s : F
  pub cooldown_s : F
  pub min_margin_level_pct : F

module _ {F : Type 0} ⦃fl : Float F⦄ where
  abbrev set_nonpositive : Option F → Bool
  set_nonpositive none = false
  set_nonpositive (some x) = x ≤? lit 0

  unfoldable pub new_risk_config : RiskConfig F → Result (RiskConfig F)
  new_risk_config c = do
    raise_if (c.max_risk_pct_per_trade ≤? lit 0 || lit 100 <? c.max_risk_pct_per_trade)
        "max_risk_pct_per_trade must be 0..100"
    raise_if (c.max_daily_loss_pct ≤? lit 0 || lit 100 <? c.max_daily_loss_pct)
        "max_daily_loss_pct must be 0..100"
    raise_if (ltb c.max_open_positions 1) "max_open_positions must be >= 1"
    raise_if (c.max_exposure_volume ≤? lit 0) "max_exposure_volume must be positive"
    raise_if (is_empty c.allowed_sessions) "at least one session is required"
    raise_if (set_nonpositive c.max_spread_points) "max_spread_points must be positive"
    raise_if (c.min_stop_points <? lit 0) "min_stop_points must be >= 0"
    raise_if (c.duplicate_window_s <? lit 0 || c.cooldown_s <? lit 0) "windows must be >= 0"
    raise_if (c.min_margin_level_pct ≤? lit 0) "min_margin_level_pct must be positive"
    ok c
