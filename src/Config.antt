-- ===== src/Config.antt =====
-- The configuration's validation, after internal/config/validator.go.
pub mod Types
pub mod Words
pub mod Addresses
pub mod Policies
pub mod Profiles
pub mod Tailnet
pub mod Validate
pub mod Accepted
pub mod Ranges
pub mod Candidates
pub mod Devices
mod Tests
