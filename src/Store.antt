-- ===== src/Store.antt =====
-- The durable store (internal/store): records behind transactions.
pub mod Records
pub mod Tasks
pub mod Merges
pub mod Capacity
mod Examples
