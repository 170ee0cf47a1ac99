-- ===== src/Recovery.antt =====
-- The watch over the engine, after internal/controlapi/mihomo_recovery.go: samples of the
-- gateway's status, and the one automatic restart that an incident is allowed.
pub mod Controller
pub mod Samples
pub mod Monitor
pub mod Budget
pub mod Warrant
pub mod Settled
pub mod Asked
pub mod Incidents
mod Tests
