-- ===== src/Risk/Rules.antt =====
-- mt5_agent/risk/rules.py: a constructor for each subclass of `RiskRule`, and its `check`.
mod Outcome
pub mod Decides
pub mod Spec
pub mod Loops
pub mod Session
pub mod Decided
mod Account
mod Market
mod History
unfoldable pub use Outcome.*
unfoldable pub use Account.*
unfoldable pub use Market.*
unfoldable pub use History.*
use llm_mt5_agent.Prelude.{
  ℕ, ◌≡◌, String, ◌<>◌, str_eq, str_ℕ, Bool, true, false, not, Option, none, some, List, [], ◌∷◌,
  map, ◌&&◌, ◌||◌, leb, is_none, is_empty, is_blank, any, length, if◌then◌else◌,
}
use llm_mt5_agent.Python.Errors.{Result, ok, ◌>>=◌}
use llm_mt5_agent.Python.Float.{Float, ◌<?◌, ◌≤?◌, lit, or_else, Datetime, hour_of, total_seconds}
use llm_mt5_agent.Domain.Planning.{TradeAction, buy, sell, hold, action_value, TradeProposal}
use llm_mt5_agent.Domain.Trading.{
  PositionSide, side_eq, side_name, Position, AccountState, margin_level,
}
use llm_mt5_agent.Risk.Config.{TradingSession, contains, RiskConfig}
use llm_mt5_agent.Risk.Context.{DecisionRecord, RiskContext, get}
use llm_mt5_agent.Risk.Verdict

module _ {F : Type 0} ⦃fl : Float F⦄ where
  -- `rule.check(proposal, context, config)`; `repr` is the builtin, for the allowlist's message.
  unfoldable pub check :
      (String → String) → RiskRule → TradeProposal F → RiskContext F → RiskConfig F → Checked
  unfolding check_account_safety check_symbol_allowlist check_session check_max_risk
      check_daily_loss daily_loss_limit check_max_positions check_max_exposure exposure check_spread
      check_stop_loss_required check_take_profit_required check_min_stop_distance check_duplicate
      check_cooldown contains hour_of total_seconds or_else get margin_level side_of has_position
      recent_approval latest_age fail Verdict.new_violation is_blank
  check repr account_safety p x c = check_account_safety x c
  check repr symbol_allowlist p x c = check_symbol_allowlist repr p c
  check repr session p x c = check_session x c
  check repr max_risk p x c = check_max_risk p c
  check repr daily_loss p x c = check_daily_loss x c
  check repr max_positions p x c = check_max_positions x c
  check repr max_exposure p x c = check_max_exposure p x c
  check repr spread p x c = check_spread p x c
  check repr stop_loss_required p x c = check_stop_loss_required p c
  check repr take_profit_required p x c = check_take_profit_required p c
  check repr min_stop_distance p x c = check_min_stop_distance p x c
  check repr duplicate p x c = check_duplicate p x c
  check repr cooldown p x c = check_cooldown p x c

abbrev pub default_rules : List RiskRule
default_rules =
    account_safety ∷ symbol_allowlist ∷ session ∷ max_risk ∷ daily_loss ∷ max_positions
    ∷ max_exposure ∷ spread ∷ stop_loss_required ∷ take_profit_required ∷ min_stop_distance
    ∷ duplicate ∷ cooldown ∷ []
