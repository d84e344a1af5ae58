-- ===== src/Apply.antt =====
-- internal/repository/postgres/events.go: inbound events applied to the application tables.
pub mod Rows
pub mod Batches
pub mod Invariants
pub mod Ownership
pub mod InsertOnly
