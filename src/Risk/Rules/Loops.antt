-- ===== src/Risk/Rules/Loops.antt =====
-- What the loops of the checks of mt5_agent/risk/rules.py find.
use llm_mt5_agent.Prelude.{
  ◌≡◌, refl, ◌↔◌, ◌⊎◌, inl, inr, String, str_eq, str_eq_iff, Bool, true, not, ◌&&◌, Option, none,
  some, List, [], ◌∷◌, Any, In, any, any_iff, or_iff, ⊎-regroup, is_none, arith,
}
use llm_mt5_agent.Python.Float.{Float, IsOrdered, lit, Datetime, total_seconds}
use llm_mt5_agent.Domain.Planning.{hold, action_value, TradeProposal}
use llm_mt5_agent.Domain.Trading.{PositionSide, buy, sell, side_eq, Position}
use llm_mt5_agent.Risk.Context.{DecisionRecord}
use llm_mt5_agent.Risk.Rules.History.{has_position, recent_approval, younger, latest_age}
use llm_mt5_agent.Risk.Rules.Spec.{Repeats, Holds, Disturbs}

pub any-In : (s : String) (xs : List String) → (any (str_eq s) xs ≡ true) ↔ In s xs
any-In s [] = (λ h. cc, λ h. absurd h)
any-In s (x ∷ xs) = or_iff (str_eq s x) (any (str_eq s) xs) (str_eq_iff s x) (any-In s xs)

side_eq_iff : (a b : PositionSide) → (side_eq a b ≡ true) ↔ (a ≡ b)
side_eq_iff buy buy = ground arith
side_eq_iff buy sell = ground arith
side_eq_iff sell buy = ground arith
side_eq_iff sell sell = ground arith

module _ {F : Type 0} ⦃fl : Float F⦄ where
  abbrev holds : String → PositionSide → Position F → Bool
  holds symbol side q = str_eq q.symbol symbol && side_eq q.side side

  holds_iff :
      (symbol : String) (side : PositionSide) (q : Position F)
      → (holds symbol side q ≡ true) ↔ Holds symbol side q
  holds_iff symbol side q = (
    λ h. record {
      same_symbol = ground (arith, str_eq_iff q.symbol symbol);
      same_side = (side_eq_iff q.side side).0 (ground arith);
    },
    λ h.
        rw ((str_eq_iff q.symbol symbol).1 h.same_symbol) ((side_eq_iff q.side side).1 h.same_side),
  )

  has_position-eq-any :
      (symbol : String) (side : PositionSide) (qs : List (Position F))
      → has_position symbol side qs ≡ any (holds symbol side) qs
  unfolding has_position
  has_position-eq-any symbol side [] = refl
  has_position-eq-any symbol side (q ∷ rest) = ground (arith, has_position-eq-any symbol side rest)

  -- The loop over the positions answers whether one is on the symbol and side.
  pub has_position_iff :
      (symbol : String) (side : PositionSide) (qs : List (Position F))
      → (has_position symbol side qs ≡ true) ↔ Any (Holds symbol side) qs
  has_position_iff symbol side qs = rw has_position-eq-any (any_iff _ _ qs (holds_iff symbol side))

  abbrev repeats : TradeProposal F → F → Datetime → DecisionRecord → Bool
  repeats p window now r =
      r.approved
      && (not (str_eq r.action (action_value hold))
          && (str_eq r.symbol p.symbol
              && (str_eq r.action (action_value p.action)
                  && (fl.le (lit 0) (total_seconds now r.at)
                      && fl.le (total_seconds now r.at) window))))

  repeats_iff :
      (p : TradeProposal F) (window : F) (now : Datetime) (r : DecisionRecord)
      → (repeats p window now r ≡ true) ↔ Repeats p window now r
  repeats_iff p window now r =
      let a = str_eq_iff r.action (action_value hold) in
      let b = str_eq_iff r.symbol p.symbol in
      let c = str_eq_iff r.action (action_value p.action) in (λ h. ground arith, λ h. ground arith)

  recent_approval-eq-any :
      (p : TradeProposal F) (window : F) (now : Datetime) (rs : List DecisionRecord)
      → not (is_none (recent_approval p window now rs)) ≡ any (repeats p window now) rs
  unfolding recent_approval
  recent_approval-eq-any p window now [] = refl
  recent_approval-eq-any p window now (r ∷ rest) =
      ground (arith, recent_approval-eq-any p window now rest)

  -- The loop over the decisions finds an age exactly if a past approval repeats the trade.
  pub recent_approval_iff :
      (p : TradeProposal F) (window : F) (now : Datetime) (rs : List DecisionRecord)
      → (not (is_none (recent_approval p window now rs)) ≡ true) ↔ Any (Repeats p window now) rs
  recent_approval_iff p window now rs =
      rw recent_approval-eq-any (any_iff _ _ rs (repeats_iff p window now))

  abbrev pub IsUnder : Option F → F → Type 0
  IsUnder none period = ⊥
  IsUnder (some age) period = fl.lt age period ≡ true

  abbrev IsPast : Option F → Type 0
  IsPast none = Unit
  IsPast (some age) = fl.le (lit 0) age ≡ true

  module _ (ord : IsOrdered fl) (symbol : String) (now : Datetime) (period : F) where
    younger-IsPast :
        (latest : Option F) (r : DecisionRecord)
        → IsPast latest
        → IsPast (younger symbol now latest r)
    unfolding younger
    younger-IsPast none r h = ground arith
    younger-IsPast (some l) r h = ground arith

    younger_iff :
        (latest : Option F) (r : DecisionRecord)
        → IsPast latest
        → IsUnder (younger symbol now latest r) period
          ↔ (IsUnder latest period ⊎ Disturbs symbol period now r)
    unfolding younger
    younger_iff none r h =
        let e = str_eq_iff r.symbol symbol in (λ u. ground arith, λ u. ground arith)
    younger_iff (some l) r h =
        let age : F = total_seconds now r.at in
        let e = str_eq_iff r.symbol symbol in
        (
          λ u. ground arith,
          λ u. ground (
            arith,
            ord.lt_trans age l period,
            ord.lt_of_le l age period,
            ord.le_of_not_lt age l (lit 0),
          ),
        )

    latest_age_iff :
        (latest : Option F) (rs : List DecisionRecord)
        → IsPast latest
        → IsUnder (latest_age symbol now latest rs) period
          ↔ (IsUnder latest period ⊎ Any (Disturbs symbol period now) rs)
    unfolding latest_age
    latest_age_iff latest [] h = (inl, found)
      where
        found : IsUnder latest period ⊎ ⊥ → IsUnder latest period
        found (inl u) = u
        found (inr e) = absurd e
    latest_age_iff latest (r ∷ rest) h =
        ⊎-regroup (younger_iff latest r h)
          (latest_age_iff (younger symbol now latest r) rest (younger-IsPast latest r h))

    -- The least age is below the period exactly if some decision disturbs.
    pub latest_age-IsUnder :
        (rs : List DecisionRecord)
        → IsUnder (latest_age symbol now none rs) period ↔ Any (Disturbs symbol period now) rs
    latest_age-IsUnder rs =
        ((λ u. found ((latest_age_iff none rs tt).0 u)), λ a. (latest_age_iff none rs tt).1 (inr a))
      where
        found : ⊥ ⊎ Any (Disturbs symbol period now) rs → Any (Disturbs symbol period now) rs
        found (inl e) = absurd e
        found (inr a) = a
