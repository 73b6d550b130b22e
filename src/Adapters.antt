-- ===== src/Adapters.antt =====
-- The clients of the single exchanges: backend/app/exchanges.
pub mod Orders
pub mod Spelling
pub mod Sides
pub mod Permissions
pub mod Quotes
pub mod Holdings
pub mod Names
pub mod Fills
pub mod Pages
pub mod Binance
