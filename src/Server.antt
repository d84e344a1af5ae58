-- ===== src/Server.antt =====
-- internal/transport/grpc/server: which consumers are accepted (handshake.go), and the feed that
-- `Consume` sends to one of them (handlers.go). The send queue and the stream take every message.
pub mod Access
pub mod Feed
