-- ===== src/Tests.antt =====
-- Runs of the definitions on sample data, and the theorems at concrete inputs.
pub mod Samples
pub mod Manifest
pub mod Surveyor
pub mod TownCtl
pub mod Lock
pub mod Overlay
pub mod Status
pub mod Operator
