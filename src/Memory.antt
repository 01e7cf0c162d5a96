-- ===== src/Memory.antt =====
-- mt5_agent/memory: Store is the table of sqlite_store.py with its queries, Facades the scoped
-- memories of memories.py over it.
pub mod Store
pub mod Facades
mod Tests
