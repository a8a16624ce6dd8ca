-- ===== src/Engine.antt =====
-- The matching engine, matching_engine/src/lib.rs.
pub mod Orders
pub mod Matching
pub mod Operations
pub mod Queries
pub mod Loops
pub mod Levels
pub mod Sweep
pub mod Validity
pub mod Spreads
pub mod Reachable
mod Tests
pub mod Samples
