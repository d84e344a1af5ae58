-- ===== src/Witnesses.antt =====
-- The theorems at concrete inputs, and runs of the code.
mod Leases
mod Apply
mod Snapshot
mod Client
mod Commit
mod Outbox
mod Changefeed
mod Protocol
mod Server
mod Session
mod Delivery
mod Transformers
