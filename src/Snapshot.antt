-- ===== src/Snapshot.antt =====
-- internal/service/snapshot/service.go, internal/repository/postgres/snapshot.go and
-- internal/repository/postgres/state_snapshots.go: the transfer of whole tables between regions.
pub mod Source
pub mod Jobs
pub mod Chunks
pub mod Receiver
pub mod Sender
pub mod Transfer
