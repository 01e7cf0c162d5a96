-- ===== src/Strategies.antt =====
-- mt5_agent/strategies and application/strategy_service.py: Strategy is the interface, MeasureMove and
-- Null the strategies, Service runs them over a context.
pub mod Strategy
pub mod MeasureMove
pub mod Null
pub mod Service
mod Tests
