-- ===== src/Client.antt =====
-- internal/transport/grpc/client: the delay before a reconnection.
pub mod Backoff
pub mod Session
