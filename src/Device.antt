-- ===== src/Device.antt =====
-- The device policy (internal/device): its declarative form, what validation
-- ensures of it, and its compilation.
pub mod Policy
pub mod Names
pub mod Variants
pub mod Validate
pub mod Accept
pub mod Expansion
pub mod Countable
pub mod Accepted
pub mod Tests
pub mod Addresses
pub mod Compilable
pub mod Resolution
pub mod Compiled
pub mod Slots
pub mod Assemble
pub mod Compile
pub mod Targets
pub mod Supports
pub mod Inventory
pub mod Compiles
pub mod Choices
pub mod Bypass
mod CompileTests
