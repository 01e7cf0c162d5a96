-- ===== src/Risk.antt =====
-- mt5_agent/risk: the deterministic rules, the engine that runs them and the supervisor with its
-- ledger. Config, Context, Verdict, Rules, Engine and Supervisor follow config.py, context.py,
-- result.py, rules.py, engine.py and supervisor.py.
pub mod Config
pub mod Context
pub mod Verdict
pub mod Rules
pub mod Engine
pub mod Supervisor
pub mod Tests
