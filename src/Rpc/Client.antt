-- ===== src/Rpc/Client.antt =====
-- The client's end of a stream, internal/transport/rpc/client.
pub mod Forward
pub mod Resolve
pub mod Packet
pub mod Deadline
pub mod Stream
pub mod Setup
