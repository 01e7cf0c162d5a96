-- ===== src/Risk/Rules/Decided.antt =====
-- Each check of mt5_agent/risk/rules.py is decided by what its rule demands.
use llm_mt5_agent.Prelude.{
  ◌<◌, ◌≡◌, refl, ◌⊎◌, inl, inr, String, is_blank, is_blank-append, Bool, true, false, not, ◌&&◌,
  ◌||◌, Option, none, some, List, [], ◌∷◌, Any, any_iff, length, is_none, not-eq-false,
  true-of_not-eq-false, eq-false_iff, ×-iff_left, ¬-iff, is_empty, arith, if◌then◌else◌,
}
use llm_mt5_agent.Python.Float.{Float, IsOrdered, ◌<?◌, Datetime, hour_of}
use llm_mt5_agent.Domain.Planning.{TradeProposal}
use llm_mt5_agent.Domain.Trading.{PositionSide, margin_level}
use llm_mt5_agent.Risk.Config.{contains, RiskConfig}
use llm_mt5_agent.Risk.Context.{DecisionRecord, RiskContext}
use llm_mt5_agent.Risk.Rules
use llm_mt5_agent.Risk.Rules.{RiskRule, Checked, pass, fail}
use llm_mt5_agent.Risk.Rules.Decides.{
  Decides, fail-Decides, if-Decides, guard-Decides, Decides-iff, skip-Decides, unless-Decides,
}
use llm_mt5_agent.Risk.Rules.Loops.{
  any-In, has_position_iff, recent_approval_iff, IsUnder, latest_age-IsUnder,
}
use llm_mt5_agent.Risk.Rules.Spec.{
  AtMost, IsKnownAbove, NotBelow, IsRequired, Allowed, IsDistant, Disturbs, IsFresh, Passes,
}

decide-Allowed :
    (repr : String → String) (symbol : String) (symbols : Option (List String))
    → Decides Rules.symbol_allowlist
        (Rules.check_allowed repr symbol symbols)
        (Allowed symbols symbol)
unfolding Rules.check_allowed is_blank
decide-Allowed repr symbol none = inl (refl, tt)
decide-Allowed repr symbol (some symbols) =
    Decides-iff Rules.symbol_allowlist _
      (
        λ e. (any-In symbol symbols).0 (not-eq-false _ e),
        λ h. true-of_not-eq-false _ ((any-In symbol symbols).1 h),
      )
      (guard-Decides Rules.symbol_allowlist _ _ (rw is_blank-append))

module _ {F : Type 0} ⦃fl : Float F⦄ where
  decide_max_risk :
      (p : TradeProposal F) (c : RiskConfig F)
      → Decides Rules.max_risk
          (Rules.check_max_risk p c)
          ((c.max_risk_pct_per_trade <? p.risk_pct) ≡ false)
  unfolding Rules.check_max_risk is_blank
  decide_max_risk p c = guard-Decides Rules.max_risk _ _ (rw is_blank-append)

  decide_max_exposure :
      (p : TradeProposal F) (x : RiskContext F) (c : RiskConfig F)
      → Decides Rules.max_exposure
          (Rules.check_max_exposure p x c)
          ((c.max_exposure_volume <? Rules.exposure p x) ≡ false)
  unfolding Rules.check_max_exposure is_blank
  decide_max_exposure p x c = guard-Decides Rules.max_exposure _ _ (rw is_blank-append)

  decide_day_pnl :
      (pnl : Option F) (limit : F)
      → Decides Rules.daily_loss (Rules.check_day_pnl pnl limit) (IsKnownAbove pnl (fl.neg limit))
  unfolding Rules.check_day_pnl is_blank
  decide_day_pnl none limit = fail-Decides Rules.daily_loss _ refl (λ h. h)
  decide_day_pnl (some pnl) limit = guard-Decides Rules.daily_loss _ _ (rw is_blank-append)

  decide_margin_level :
      (level : Option F) (least : F)
      → Decides Rules.account_safety (Rules.check_margin_level level least) (NotBelow level least)
  unfolding Rules.check_margin_level is_blank
  decide_margin_level none least = inl (refl, tt)
  decide_margin_level (some level) least =
      guard-Decides Rules.account_safety _ _ (rw is_blank-append)

  decide_account_safety :
      (p : TradeProposal F) (x : RiskContext F) (c : RiskConfig F)
      → Decides Rules.account_safety
          (Rules.check_account_safety x c)
          (Passes Rules.account_safety p x c)
  unfolding Rules.check_account_safety is_blank
  decide_account_safety p x c =
      let margin = decide_margin_level (margin_level x.account) c.min_margin_level_pct in
      Decides-iff Rules.account_safety _
        (λ (e, (f, m)). (not-eq-false _ e, f, m), λ (e, f, m). (true-of_not-eq-false _ e, (f, m)))
        (if-Decides Rules.account_safety _ _ _ refl
          (if-Decides Rules.account_safety _ _ _ refl margin))

  decide_max_positions :
      (x : RiskContext F) (c : RiskConfig F)
      → Decides Rules.max_positions
          (Rules.check_max_positions x c)
          (length x.positions < c.max_open_positions)
  unfolding Rules.check_max_positions is_blank
  decide_max_positions x c =
      Decides-iff Rules.max_positions _ (λ e. ground arith, λ e. ground arith)
        (guard-Decides Rules.max_positions _ _ (simp is_blank-append (ground arith)))

  decide_spread :
      (most points : Option F)
      → Decides Rules.spread (Rules.check_spread_within most points) (AtMost most points)
  unfolding Rules.check_spread_within is_blank
  decide_spread none points = inl (refl, tt)
  decide_spread (some most) none = fail-Decides Rules.spread _ refl (λ h. h)
  decide_spread (some most) (some points) = guard-Decides Rules.spread _ _ (rw is_blank-append)

  decide-IsRequired :
      (rule : RiskRule) (required : Bool) (price : Option F) (message : String)
      → is_blank message ≡ false
      → Decides rule
          (if required && is_none price then fail rule message else pass)
          (IsRequired required price)
  decide-IsRequired rule true none message h = fail-Decides rule message h (λ k. k)
  decide-IsRequired rule true (some _) message h = inl (refl, tt)
  decide-IsRequired rule false _ message h = inl (refl, tt)

  decide_distance :
      (least point : F) (entry stop : Option F)
      → Decides Rules.min_stop_distance
          (Rules.check_distance least point entry stop)
          (IsDistant least point entry stop)
  unfolding Rules.check_distance is_blank
  decide_distance least point (some entry) (some stop) =
      if-Decides Rules.min_stop_distance _ _ _ refl
        (guard-Decides Rules.min_stop_distance _ _ (rw is_blank-append))
  decide_distance least point (some entry) none = inl (refl, tt)
  decide_distance least point none _ = inl (refl, tt)

  decide_approval :
      (p : TradeProposal F) (age : Option F)
      → Decides Rules.duplicate (Rules.check_approval p age) (not (is_none age) ≡ false)
  unfolding Rules.check_approval is_blank
  decide_approval p none = inl (refl, refl)
  decide_approval p (some age) =
      fail-Decides Rules.duplicate _ (simp is_blank-append (ground arith)) (λ e. cc)

  decide_side :
      (p : TradeProposal F) (x : RiskContext F) (c : RiskConfig F) (side : Option PositionSide)
      → Decides Rules.duplicate (Rules.check_side p x c side) (IsFresh p x c side)
  unfolding Rules.check_side is_blank
  decide_side p x c none = inl (refl, tt)
  decide_side p x c (some side) =
      let window = c.duplicate_window_s in
      let recents = recent_approval_iff p window x.server_time x.recent_decisions in
      Decides-iff Rules.duplicate _
        (×-iff_left (eq-false_iff _ (has_position_iff p.symbol side x.positions)))
        (if-Decides Rules.duplicate _ _ _ (simp is_blank-append) (
          skip-Decides Rules.duplicate _ _
            (Decides-iff Rules.duplicate _ (eq-false_iff _ recents) (decide_approval p _))))

  decide_quiet :
      (symbol : String) (period : F) (latest : Option F)
      → Decides Rules.cooldown (Rules.check_quiet symbol period latest) (¬ IsUnder latest period)
  unfolding Rules.check_quiet is_blank
  decide_quiet symbol period none = inl (refl, λ e. e)
  decide_quiet symbol period (some latest) =
      Decides-iff Rules.cooldown _ (eq-false_iff _ (λ e. e, λ e. e))
        (guard-Decides Rules.cooldown _ _ (rw is_blank-append))

  decide_cooldown :
      (ord : IsOrdered fl) (symbol : String) (period : F) (now : Datetime) (off : Bool)
      (rs : List DecisionRecord)
      → Decides Rules.cooldown
          (if off || is_empty rs
            then pass
            else Rules.check_quiet symbol period (Rules.latest_age symbol now none rs))
          ((off ≡ true) ⊎ ¬ Any (Disturbs symbol period now) rs)
  decide_cooldown ord symbol period now true rs = inl (refl, inl refl)
  decide_cooldown ord symbol period now false [] = inl (refl, inr (λ e. e))
  decide_cooldown ord symbol period now false (r ∷ rest) = skip-Decides Rules.cooldown false _ (
      Decides-iff Rules.cooldown _ (¬-iff (latest_age-IsUnder ord symbol now period (r ∷ rest)))
        (decide_quiet symbol period _))

  decide_session :
      (p : TradeProposal F) (x : RiskContext F) (c : RiskConfig F)
      → Decides Rules.session (Rules.check_session x c) (Passes Rules.session p x c)
  unfolding Rules.check_session is_blank
  decide_session p x c =
      let iff =
        any_iff (λ s. contains s (hour_of x.server_time)) _ c.allowed_sessions
          (λ s. (λ e. e, λ e. e)) in
      Decides-iff Rules.session _ iff (unless-Decides Rules.session _ _ (rw is_blank-append))

  -- Every rule returns: it passes exactly if the proposal meets what the rule demands, and else it
  -- reports one violation with the rule's own code and name. It never raises.
  -- The floats are ordered as IEEE 754 says of them (`IsOrdered`).
  pub check-Decides :
      (ord : IsOrdered fl) (repr : String → String) (rule : RiskRule) (p : TradeProposal F)
      (x : RiskContext F) (c : RiskConfig F)
      → Decides rule (Rules.check repr rule p x c) (Passes rule p x c)
  unfolding Rules.check
  check-Decides ord repr Rules.account_safety p x c = decide_account_safety p x c
  check-Decides ord repr Rules.symbol_allowlist p x c =
      decide-Allowed repr p.symbol c.allowed_symbols
  check-Decides ord repr Rules.session p x c = decide_session p x c
  check-Decides ord repr Rules.max_risk p x c = decide_max_risk p c
  check-Decides ord repr Rules.daily_loss p x c = decide_day_pnl x.day_pnl _
  check-Decides ord repr Rules.max_positions p x c = decide_max_positions x c
  check-Decides ord repr Rules.max_exposure p x c = decide_max_exposure p x c
  check-Decides ord repr Rules.spread p x c = decide_spread c.max_spread_points _
  check-Decides ord repr Rules.stop_loss_required p x c =
      decide-IsRequired Rules.stop_loss_required c.require_stop_loss p.stop_loss
        "stop loss is mandatory" refl
  check-Decides ord repr Rules.take_profit_required p x c =
      decide-IsRequired Rules.take_profit_required c.require_take_profit p.take_profit
        "take profit is mandatory" refl
  check-Decides ord repr Rules.min_stop_distance p x c =
      skip-Decides Rules.min_stop_distance _ _ (decide_distance _ _ p.entry p.stop_loss)
  check-Decides ord repr Rules.duplicate p x c = decide_side p x c _
  check-Decides ord repr Rules.cooldown p x c =
      decide_cooldown ord p.symbol c.cooldown_s x.server_time _ x.recent_decisions
