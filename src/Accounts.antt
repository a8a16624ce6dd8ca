-- ===== src/Accounts.antt =====
-- accounts/src/models: the ledger, the orders and the settlement of trades, over the tables that they
-- read and write, and the one-time codes. A transaction that fails is rolled back: its result carries no
-- tables.
pub mod Tables
pub mod Ledger
pub mod Orders
pub mod Trades
pub mod Books
pub mod Reconciling
pub mod Histories
pub mod Nets
pub mod Otps
pub mod Again
mod Tests
