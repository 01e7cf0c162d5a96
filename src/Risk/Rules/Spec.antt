-- ===== src/Risk/Rules/Spec.antt =====
-- What each rule of mt5_agent/risk/rules.py demands, said without its loops and early returns.
use llm_mt5_agent.Prelude.{
  ℕ, ◌+◌, ◌-◌, ◌<◌, ◌%◌, ◌≡◌, ◌≢◌, ◌⊎◌, String, Bool, true, false, Option, none, some, List, Any,
  In, ltb, length, if◌then◌else◌,
}
use llm_mt5_agent.Python.Float.{Float, ◌<?◌, ◌≤?◌, lit, or_else, Datetime, hour_of, total_seconds}
use llm_mt5_agent.Domain.Planning.{action_value, hold, TradeProposal}
use llm_mt5_agent.Domain.Trading.{PositionSide, Position, margin_level}
use llm_mt5_agent.Risk.Config.{TradingSession, contains, RiskConfig}
use llm_mt5_agent.Risk.Context.{DecisionRecord, RiskContext, get}
use llm_mt5_agent.Risk.Rules.Outcome.{
  RiskRule, account_safety, symbol_allowlist, session, max_risk, daily_loss, max_positions,
  max_exposure, spread, stop_loss_required, take_profit_required, min_stop_distance, duplicate,
  cooldown,
}
use llm_mt5_agent.Risk.Rules.Account.{daily_loss_limit, exposure}
use llm_mt5_agent.Risk.Rules.History.{side_of}

-- The hours of a session, counted forward from its start over midnight.
abbrev pub session_length : TradingSession → ℕ
session_length s =
    if ltb s.start_hour s.end_hour
    then s.end_hour - s.start_hour
    else s.end_hour + 24 - s.start_hour

abbrev pub Covers : TradingSession → ℕ → Type 0
Covers s hour = (k : ℕ) × (k < session_length s) × ((s.start_hour + k) % 24 ≡ hour)

abbrev pub Allowed : Option (List String) → String → Type 0
Allowed none symbol = Unit
Allowed (some symbols) symbol = In symbol symbols

module _ {F : Type 0} ⦃fl : Float F⦄ where
  -- Where a limit is set, the value is known and not above it.
  abbrev pub AtMost : Option F → Option F → Type 0
  AtMost none value = Unit
  AtMost (some most) none = ⊥
  AtMost (some most) (some value) = (most <? value) ≡ false

  abbrev pub IsKnownAbove : Option F → F → Type 0
  IsKnownAbove none bound = ⊥
  IsKnownAbove (some value) bound = (value ≤? bound) ≡ false

  abbrev pub NotBelow : Option F → F → Type 0
  NotBelow none bound = Unit
  NotBelow (some value) bound = (value <? bound) ≡ false

  abbrev pub IsRequired : Bool → Option F → Type 0
  IsRequired true none = ⊥
  IsRequired _ _ = Unit

  -- Where both prices are known, the point is positive and their distance in points not too small.
  abbrev pub IsDistant : F → F → Option F → Option F → Type 0
  IsDistant least point (some entry) (some stop) =
      ((point ≤? lit 0) ≡ false) × ((fl.div (fl.abs (fl.sub entry stop)) point <? least) ≡ false)
  IsDistant least point _ _ = Unit

  -- A past approval of the same trade, no older than the window.
  pub record Repeats (p : TradeProposal F) (window : F) (now : Datetime) (r : DecisionRecord)
      : Type 0 where
    pub approved : r.approved ≡ true
    pub directional : r.action ≢ action_value hold
    pub same_symbol : r.symbol ≡ p.symbol
    pub same_action : r.action ≡ action_value p.action
    pub past : fl.le (lit 0) (total_seconds now r.at) ≡ true
    pub recent : fl.le (total_seconds now r.at) window ≡ true

  pub record Holds (symbol : String) (side : PositionSide) (q : Position F) : Type 0 where
    pub same_symbol : q.symbol ≡ symbol
    pub same_side : q.side ≡ side

  -- A past decision on the symbol that is younger than the quiet period.
  pub record Disturbs (symbol : String) (period : F) (now : Datetime) (r : DecisionRecord)
      : Type 0 where
    pub same_symbol : r.symbol ≡ symbol
    pub past : fl.le (lit 0) (total_seconds now r.at) ≡ true
    pub recent : fl.lt (total_seconds now r.at) period ≡ true

  abbrev pub IsFresh : TradeProposal F → RiskContext F → RiskConfig F → Option PositionSide → Type 0
  IsFresh p x c none = Unit
  IsFresh p x c (some side) =
      (¬ Any (Holds p.symbol side) x.positions)
      × (((c.duplicate_window_s ≤? lit 0) ≡ true)
          ⊎ ¬ Any (Repeats p c.duplicate_window_s x.server_time) x.recent_decisions)

  -- The demand of each rule.
  abbrev pub Passes : RiskRule → TradeProposal F → RiskContext F → RiskConfig F → Type 0
  Passes account_safety p x c =
      (x.account.account.trade_allowed ≡ true)
      × ((x.account.account.equity ≤? lit 0) ≡ false)
      × NotBelow (margin_level x.account) c.min_margin_level_pct
  Passes symbol_allowlist p x c = Allowed c.allowed_symbols p.symbol
  Passes session p x c = Any (λ s. contains s (hour_of x.server_time) ≡ true) c.allowed_sessions
  Passes max_risk p x c = (c.max_risk_pct_per_trade <? p.risk_pct) ≡ false
  Passes daily_loss p x c = IsKnownAbove x.day_pnl (fl.neg (daily_loss_limit x c))
  Passes max_positions p x c = length x.positions < c.max_open_positions
  Passes max_exposure p x c = (c.max_exposure_volume <? exposure p x) ≡ false
  Passes spread p x c = AtMost c.max_spread_points (get x.spreads_points p.symbol)
  Passes stop_loss_required p x c = IsRequired c.require_stop_loss p.stop_loss
  Passes take_profit_required p x c = IsRequired c.require_take_profit p.take_profit
  Passes min_stop_distance p x c =
      ((c.min_stop_points ≤? lit 0) ≡ true)
      ⊎ IsDistant c.min_stop_points (or_else (get x.symbol_points p.symbol) (lit 0)) p.entry
          p.stop_loss
  Passes duplicate p x c = IsFresh p x c (side_of p.action)
  Passes cooldown p x c =
      ((c.cooldown_s ≤? lit 0) ≡ true)
      ⊎ ¬ Any (Disturbs p.symbol c.cooldown_s x.server_time) x.recent_decisions
