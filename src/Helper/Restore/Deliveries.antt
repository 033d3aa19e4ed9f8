-- ===== src/Helper/Restore/Deliveries.antt =====
-- helper/restore_helper.go: what the agent writes into the pipes from single data files, whatever
-- fails and whatever is skipped.
use gpbackup.Base.{ℕ, ◌≡◌, ◌≢◌, List, nat_comparable, string_comparable, filter}
use gpbackup.Helper.{value}
use gpbackup.Helper.Reader.{subset, RestoreReader}
use gpbackup.Helper.Restore.{entry_comparable, RestoreHost, Delivery, AgentState}

-- Each data file is read from its first byte, and the plugin sends all of it.
unfoldable pub ReadsFiles : RestoreHost → (ℕ → List ℕ) → Type 0
ReadsFiles host files =
    (c : ℕ) (oids : List ℕ) (r : RestoreReader)
    → host.sdf_reader c oids ≡ value r
    → (r.source ≡ files c) × (r.position ≡ 0) × (r.reader_type ≢ subset)

-- The copies that, like their flush, have ended without an error.
unfoldable pub completed : AgentState → List Delivery
completed st = filter (λ d. d.is_complete) st.deliveries
