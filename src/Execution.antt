-- ===== src/Execution.antt =====
-- mt5_agent/execution/executor.py: Session holds what the executor calls (the terminal module and
-- the connection port, both parameters) and the actions on it, Reply and Records how it reads
-- replies and builds records, Live the path to the terminal, Executor the ledger round it.
pub mod Session
pub mod Reply
pub mod Records
pub mod Live
pub mod Executor
mod Tests
