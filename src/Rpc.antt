-- ===== src/Rpc.antt =====
-- The gRPC transport, internal/transport/rpc: its messages, the two ends of a stream, and the
-- client's pool of connections.
pub mod Names
pub mod Messages
pub mod Client
pub mod Server
pub mod Pool
pub mod Tunnel
pub mod Records
pub mod Resolution
