-- ===== src/Tests.antt =====
-- The theorems at concrete inputs.
mod Routing
mod Relays
mod Handshake
mod Pools
mod Datagrams
mod Tunnels
mod Resolving
mod Sessions
mod Configs
mod Proxying
mod Transports
mod Starting
