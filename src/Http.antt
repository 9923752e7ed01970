-- ===== src/Http.antt =====
-- The HTTP proxy, internal/http: headers, credentials, addresses, and the handlers up to the transport
-- that they use.
pub mod Headers
pub mod Basic
pub mod Handlers
pub mod Connect
