-- ===== src/Packet.antt =====
-- The IPv6 packet broker (internal/ipv6packet): frames of the downstream network to messages for
-- the proxy engine, and back.
pub mod Protocol
pub mod Roundtrip
pub mod Frames
pub mod Broker
pub mod Neighbors
pub mod Delivery
pub mod Clients
mod Tests
