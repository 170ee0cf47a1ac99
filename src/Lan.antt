-- ===== src/Lan.antt =====
-- The gateway's LAN (internal/lan/lan.go): the subnet of the configured prefix length, and the
-- validation of a policy for it.
pub mod Scope
pub mod Offsets
pub mod Policy
pub mod Active
pub mod Validated
mod Tests
