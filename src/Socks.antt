-- ===== src/Socks.antt =====
-- The SOCKS5 front end, internal/socks.
pub mod Errors
pub mod Limiter
pub mod Header
pub mod Nat
pub mod Relay
pub mod Wire
pub mod Auth
pub mod Request
pub mod Server
pub mod Packets
pub mod Opening
pub mod Dialing
pub mod Jobs
