-- ===== src/Adapters/Binance.antt =====
-- Binance: backend/app/exchanges/binance.py.
pub mod Walk
pub mod Budget
pub mod Trades
pub mod Complete
pub mod Tracks
pub mod Whole
