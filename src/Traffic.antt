-- ===== src/Traffic.antt =====
-- The accounting of connections: which connections a refresh closes, and the outlet that a device
-- is shown with (internal/controlapi/connection_refresh.go, device_traffic.go).
pub mod Connections
pub mod Egress
pub mod Order
pub mod Primary
pub mod Closed
mod Tests
