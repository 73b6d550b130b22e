-- ===== src/Prices.antt =====
-- Global prices: backend/app/services/price_service.py.
pub mod Symbols
pub mod Search
pub mod Service
pub mod Ranking
pub mod Absent
pub mod Priority
pub mod Stuck
