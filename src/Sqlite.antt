-- ===== src/Sqlite.antt =====
-- connectors/sqlite.py. The database is outside.
pub mod Types
pub mod Journal
pub mod Ids
pub mod Delivery
pub mod Statements
pub mod Setup
pub mod Discover
pub mod Transactions
mod Tests
