-- ===== src/Coordinator.antt =====
-- proxies/cmd/coordinator: the single writer of the database.
pub mod Aggregate
pub mod Ingest
pub mod Consuming
pub mod Plan
pub mod Publishing
pub mod System
