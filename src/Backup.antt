-- ===== src/Backup.antt =====
-- The package backup.
pub mod Metadata
pub mod Sort
pub mod Cohorts
pub mod Cycles
pub mod Incremental
pub mod Flags
pub mod Acl
pub mod Grants
pub mod Objects
