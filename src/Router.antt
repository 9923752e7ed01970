-- ===== src/Router.antt =====
-- The router, internal/router: which egress a destination goes to.
pub mod Egress
pub mod Table
pub mod Route
pub mod State
