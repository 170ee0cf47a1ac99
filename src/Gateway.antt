-- ===== src/Gateway.antt =====
-- The gateway lifecycle (internal/gateway): start, stop, reload and restart of the proxy engine
-- over the dependencies of `gatewayDeps`.
pub mod Types
pub mod World
pub mod Services
pub mod Preflight
pub mod Tracked
pub mod Rollback
pub mod Start
pub mod Stop
pub mod Reload
pub mod Restart
pub mod Tracking
pub mod Quiet
pub mod Guarantees
pub mod Calls
mod Tests
