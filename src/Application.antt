-- ===== src/Application.antt =====
-- mt5_agent/application: Health holds the verdicts and their aggregation, Watchdog the fail-safe
-- that halts the agent, Connection the retry policy and the reconnect workflow, Services the
-- services over the ports, Agent the cycles and the loop.
pub mod Health
pub mod Watchdog
pub mod Connection
pub mod Services
pub mod Agent
mod Tests
