-- ===== src/Helper/RoundTrip.antt =====
-- helper/: what the backup agent writes, the restore agent reads back.
use gpbackup.Base.{
  take, ℕ, ◌+◌, ◌≤◌, ◌<◌, ◌≡◌, not, ◌||◌, none, some, List, [], if◌then◌else◌, nat_comparable,
  string_comparable, length, drop,
}
use gpbackup.Base.Maps.{lookup}
use gpbackup.Base.Counting.{contains}
use gpbackup.Base.Words.{i64_limit}
use gpbackup.Toc.{SegmentToc}
use gpbackup.Helper.{value}
use gpbackup.Helper.Backup.{BackupHost, BackupState, do_backup_agent}
use gpbackup.Helper.Backup.Ranges.{contents}
use gpbackup.Helper.Restore.{OidWithBatch, RestoreFlags, RestoreHost, content_of, is_beyond}

-- An entry of a table holds the table's bytes, in a file that goes on from an offset.
Holds : SegmentToc → (ℕ → List ℕ) → ℕ → ℕ → List ℕ → Type 0
Holds toc table_data oid from file =
    (skipped : ℕ) × (lookup oid toc.data_entries
      ≡ some (record {
        start_byte = from + skipped;
        end_byte = from + skipped + length (table_data oid);
      }))
    × (take (length (table_data oid)) (drop skipped file) ≡ table_data oid)
    × (skipped + length (table_data oid) ≤ length file)

-- The tables of contents that the restore reads are those of agents that ended without an error.
-- The agents of all content ids back up the same tables, each with its own data.
unfoldable pub IsBackedUp :
    (ℕ → BackupHost) → ℕ → (oids pipes : List ℕ) → (ℕ → BackupState) → RestoreHost → Type 0
IsBackedUp hosts copy_queue oids pipes backups restore =
    (c : ℕ)
    → (do_backup_agent (hosts c) copy_queue oids pipes ≡ value (backups c))
      × (restore.segment_toc c ≡ (backups c).toc)
      × ((hosts c).close_loses ≡ none)
      × (length (contents (hosts c).table_data oids) < i64_limit)

-- What a table was when it was backed up: nothing, where there is no such table or content id.
unfoldable pub original_bytes : RestoreFlags → (ℕ → BackupHost) → List ℕ → OidWithBatch → List ℕ
original_bytes flags hosts oids entry =
    let c = content_of flags entry.batch in
    if is_beyond flags c || not (contains entry.oid oids)
    then []
    else (hosts c).table_data entry.oid
