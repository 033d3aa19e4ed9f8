-- ===== src/Restore.antt =====
-- The package restore.
pub mod Batches
pub mod Workers
pub mod Flags
pub mod FilterLists
pub mod Resize
pub mod Data
