-- ===== src/Utils.antt =====
-- The package utils: filter sets, names and quoting, byte-counted files.
pub mod FilterSet
pub mod Text
pub mod Io
