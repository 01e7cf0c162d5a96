-- ===== src/Application/Agent.antt =====
-- mt5_agent/application/agent.py: Parts gathers what a cycle reads, State is what it changes,
-- Stages are its steps, Cycle chains them and Loop repeats cycles.
pub mod Parts
pub mod State
pub mod Stages
pub mod Cycle
pub mod Loop
pub mod Keeps
pub mod Seen
pub mod Reviews
pub mod Orders
pub mod Watched
pub mod Lawful
mod Tests
