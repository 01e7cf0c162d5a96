-- ===== src/Domain.antt =====
-- The data of mt5_agent/domain: frozen dataclasses as records. `new_x` is the constructor of a
-- dataclass with the checks of its `__post_init__`; an identifier that MT5 reports as an unsigned
-- integer is an ℕ.
pub mod Account
pub mod Market
pub mod Trading
pub mod Terminal
pub mod Strategy
pub mod Planning
pub mod Execution
pub mod Cycle
pub mod Memory
