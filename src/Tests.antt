-- ===== src/Tests.antt =====
-- The theorems at concrete inputs, in whole dollars.
mod Fixtures
mod Trading
mod Sharing
mod Accounts
mod Valuation
mod Costs
mod Signing
mod Prices
mod Adapters
