-- ===== src/TownCtl.antt =====
-- The `town-ctl` actuator (pkg/townctl).
pub mod Stmt
pub mod Version
pub mod Topology
pub mod Diff
pub mod Costs
pub mod Roles
pub mod Apply
pub mod Includes
pub mod Merged
pub mod Lock
pub mod Overlay
pub mod Patrol
pub mod Status
