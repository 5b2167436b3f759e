-- ===== src/Tests.antt =====
-- A table in use, and the theorems at its values.
pub mod Fixture
mod Devices
mod Witnesses
mod Whole
mod Faults
mod Clones
mod Contracts
mod Programs
