-- ===== src/Postgres.antt =====
-- connectors/postgres.py. The driver and the server are outside.
pub mod Types
pub mod Scan
pub mod Rounds
pub mod Print
pub mod RoundTrip
pub mod Decode
pub mod Stream
pub mod Delivery
pub mod Setup
pub mod Slots
pub mod Discover
pub mod Statements
pub mod Removals
pub mod Atomic
pub mod Swaps
mod Tests
