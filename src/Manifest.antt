-- ===== src/Manifest.antt =====
-- The manifest: its structures, its validation, and the merge of CLAUDE.md files (pkg/manifest).
pub mod Types
pub mod Cost
pub mod Extends
pub mod Validate
pub mod Merge
pub mod Chains
pub mod Rules
pub mod ApplyTime
