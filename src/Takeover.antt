-- ===== src/Takeover.antt =====
-- The DHCP takeover of a LAN, after internal/controlapi/server.go and store.go: the recovery
-- record, the requests that move it on, and the lifecycle operations between them.
pub mod Stage
pub mod Types
pub mod World
pub mod Store
pub mod Manual
pub mod Begin
pub mod End
pub mod Actions
pub mod Finish
pub mod Steps
pub mod Sound
pub mod Ways
pub mod Leaving
pub mod Ends
pub mod Again
mod Tests
