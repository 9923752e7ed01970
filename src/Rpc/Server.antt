-- ===== src/Rpc/Server.antt =====
-- The server's end of a stream, internal/transport/rpc/server.
pub mod Forward
pub mod Resolve
pub mod Session
pub mod Access
