-- ===== src/Operator.antt =====
-- The Kubernetes operator (pkg/k8s/operator).
pub mod Types
pub mod Admission
pub mod Semver
pub mod Webhooks
pub mod Tables
pub mod Dolt
pub mod Machinery
pub mod Rig
pub mod Role
pub mod Town
pub mod Instance
