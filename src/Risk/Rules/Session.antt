-- ===== src/Risk/Rules/Session.antt =====
-- The hours that `TradingSession.contains` of mt5_agent/risk/config.py accepts.
use llm_mt5_agent.Prelude.{ℕ, ◌+◌, ◌-◌, ◌<◌, ◌≤◌, ◌%◌, ◌≡◌, ◌≢◌, ◌↔◌, true, arith}
use llm_mt5_agent.Risk.Config.{TradingSession, contains}
use llm_mt5_agent.Risk.Rules.Spec.{Covers}

-- How many hours after the start `hour` comes.
abbrev offset : TradingSession → ℕ → ℕ
offset s hour = (hour + 24 - s.start_hour) % 24

Covers-of_contains :
    (s : TradingSession) (hour : ℕ)
    → s.start_hour ≤ 24
    → s.end_hour ≤ 24
    → hour < 24
    → contains s hour ≡ true
    → Covers s hour
unfolding contains
Covers-of_contains s hour a b h e = (offset s hour, ground arith, ground arith)

contains_of_Covers :
    (s : TradingSession) (hour : ℕ)
    → s.start_hour ≤ 24
    → s.end_hour ≤ 24
    → s.start_hour ≢ s.end_hour
    → Covers s hour
    → contains s hour ≡ true
unfolding contains
contains_of_Covers s hour a b d (k, below, e) = ground arith

-- A session of two different hours between 0 and 24 contains an hour of the day exactly if the hour
-- is one of the `session_length` hours counted forward from the start, over midnight.
pub contains-iff-Covers :
    (s : TradingSession) (hour : ℕ)
    → s.start_hour ≤ 24
    → s.end_hour ≤ 24
    → s.start_hour ≢ s.end_hour
    → hour < 24
    → (contains s hour ≡ true) ↔ Covers s hour
contains-iff-Covers s hour a b d h =
    (Covers-of_contains s hour a b h, contains_of_Covers s hour a b d)
