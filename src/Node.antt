-- ===== src/Node.antt =====
-- The node (src/node).
pub mod Relay
pub mod Dht
pub mod Stun
pub mod Payloads
pub mod Handshakes
pub mod Messages
pub mod Roles
pub mod Accept
