-- ===== src/Infrastructure.antt =====
-- mt5_agent/infrastructure/mt5: Connection is the adapter that owns the terminal's connection, Mappers
-- turn the objects of the terminal into domain records, Feed has the adapters that read them.
pub mod Connection
pub mod Mappers
pub mod Feed
mod Tests
