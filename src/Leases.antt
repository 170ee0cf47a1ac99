-- ===== src/Leases.antt =====
-- The lease file of dnsmasq under an applied policy, after internal/dhcp/leases.go.
pub mod Reconcile
pub mod Lines
pub mod Settled
mod Tests
