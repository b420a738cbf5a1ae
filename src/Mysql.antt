-- ===== src/Mysql.antt =====
-- connectors/mysql.py. The driver, its binlog reader and the server are outside.
pub mod Types
pub mod Binlog
pub mod Delivery
pub mod Discover
pub mod Statements
pub mod Changes
pub mod Swaps
pub mod Setup
pub mod Starts
mod Tests
