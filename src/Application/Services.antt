-- ===== src/Application/Services.antt =====
-- mt5_agent/application: the services over the ports of domain/ports.py. Market holds
-- market_service.py, Trading position_service.py, order_service.py and account_service.py, History
-- history_service.py.
pub mod Market
pub mod Trading
pub mod History
mod Tests
