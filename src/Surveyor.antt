-- ===== src/Surveyor.antt =====
-- The Surveyor's convergence score and verify loop (pkg/surveyor/score.go).
pub mod Config
pub mod Topology
pub mod Queries
pub mod Rules
pub mod Score
pub mod Verify
