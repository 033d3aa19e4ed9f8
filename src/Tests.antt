-- ===== src/Tests.antt =====
-- The theorems at concrete inputs.
mod OfBackup
mod OfRestore
mod OfToc
mod OfUtils
mod OfHelper
mod OfData
mod OfCohorts
mod OfPrivileges
mod OfFlags
mod OfRestoreSet
