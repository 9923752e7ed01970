-- ===== src/Transport.antt =====
-- The settings that all transports share, internal/transport.
pub mod Settings
pub mod Stats
pub mod Session
pub mod Direct
pub mod Closing
