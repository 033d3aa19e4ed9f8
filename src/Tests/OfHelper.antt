-- ===== src/Tests/OfHelper.antt =====
-- The theorems on the helper agents at concrete inputs.
use gpbackup.Base.{
  take, ℕ, ◌≡◌, refl, Bool, true, false, none, some, List, [], ◌∷◌, arith, map, if◌then◌else◌, ◌==◌,
  nat_comparable, string_comparable,
}
use gpbackup.Base.Counting.{IsDistinct}
use gpbackup.Helper.{value}
use gpbackup.Helper.Backup.{BackupHost, BackupState, do_backup_agent}
use gpbackup.Helper.Backup.Ranges.{Tiles, contents, do_backup_agent-Tiles}
use gpbackup.Helper.Backup.Pipes.{Serves, do_backup_agent-completes}
use gpbackup.Helper.Reader.{nonseekable, RestoreReader, position_reader, copy_data}
use gpbackup.Helper.Restore.{
  OidWithBatch, AgentState, RestoreFlags, RestoreHost, connected, no_reader, Progress, going,
  range_of,
}
use gpbackup.Helper.Restore.Agent.{try_pipe}
use gpbackup.Helper.Restore.Loop.{do_restore_agent}
use gpbackup.Helper.Restore.Service.{first_batch, InOrder, whole_delivery}
use gpbackup.Helper.Restore.Service.{Serves as ServesRestore}
use gpbackup.Helper.Restore.Completion.{do_restore_agent-completes}

abbrev two_oids : List ℕ
two_oids = 16 ∷ 17 ∷ []

abbrev rows : ℕ → List ℕ
rows oid = if oid == 16 then 5 ∷ 6 ∷ [] else 7 ∷ []

abbrev segment_host : BackupHost
segment_host = record {
  is_terminated = λ oid. false;
  mkfifo_error = λ oid. none;
  open_error = λ oid. none;
  writer_error = none;
  table_data = rows;
  copy_error = λ oid. none;
  has_plugin = true;
  plugin_error = none;
  close_loses = none;
  toc_file_error = none;
}

abbrev two-IsDistinct : IsDistinct two_oids
two-IsDistinct = (refl, (refl, tt))

abbrev two_tables : BackupState
two_tables = record {
  pipes = [];
  last_read = 3;
  toc = record {
    data_entries =
        (16, record { start_byte = 0; end_byte = 2 })
        ∷ (17, record { start_byte = 2; end_byte = 3 })
        ∷ [];
  };
  stream = 5 ∷ 6 ∷ 7 ∷ [];
}

two_tables_run : do_backup_agent segment_host 1 two_oids (16 ∷ []) ≡ value two_tables
unfolding do_backup_agent
two_tables_run = refl

do_backup_agent-Tiles_example :
    Tiles two_tables.toc rows two_oids 0 × (two_tables.stream ≡ contents rows two_oids)
unfolding contents
do_backup_agent-Tiles_example =
    do_backup_agent-Tiles segment_host 1 two_oids (16 ∷ []) two_tables two_tables_run refl
      two-IsDistinct (omega arith)

do_backup_agent-completes_example :
    (after : BackupState) × (do_backup_agent segment_host 1 two_oids (take 1 two_oids)
      ≡ value after)
    × (after.pipes ≡ [])
unfolding Serves
do_backup_agent-completes_example =
    do_backup_agent-completes segment_host 1 two_oids
      (λ oid. refl, λ oid. refl, λ oid. refl, refl, λ oid. refl, refl, refl) two-IsDistinct

abbrev flags_of_restore : RestoreFlags
flags_of_restore = record {
  content = 0;
  orig_size = 0;
  dest_size = 0;
  copy_queue = 1;
  single_data_file = true;
  is_resize_restore = false;
  on_error_continue = true;
}

abbrev file_reader : RestoreReader
file_reader = record {
  reader_type = nonseekable;
  source = 5 ∷ 6 ∷ 7 ∷ [];
  position = 0;
  discard_err = false;
}

-- COPY comes at the second try.
abbrev restore_host : RestoreHost
restore_host = record {
  is_terminated = λ entry. false;
  mkfifo_error = λ entry. none;
  attempts = λ entry. no_reader false ∷ connected ∷ [];
  breaks = λ entry. none;
  flush_loses = λ entry. none;
  segment_toc = λ c. two_tables.toc;
  sdf_reader = λ c oids. value file_reader;
  table_reader = λ c oid. value file_reader;
  plugin_exit = λ entry. none;
}

-- COPY stops to read the first table: its copy notices it after one byte, which stays in the buffer.
abbrev broken_host : RestoreHost
broken_host = record restore_host {
  breaks = λ entry. if entry.oid == 16 then some 1 else none;
  flush_loses = λ entry. if entry.oid == 16 then some 1 else none;
}

abbrev three_bytes : ℕ → List ℕ
three_bytes c = 5 ∷ 6 ∷ 7 ∷ []

abbrev both : List OidWithBatch
both = first_batch 16 ∷ first_batch 17 ∷ []

do_restore_agent-completes_example :
    (after : AgentState) × (do_restore_agent flags_of_restore restore_host both (take 1 both)
      ≡ going after)
    × (after.pipes ≡ [])
    × (after.deliveries
        ≡ whole_delivery restore_host 0 (5 ∷ 6 ∷ 7 ∷ []) 16
          ∷ whole_delivery restore_host 0 (5 ∷ 6 ∷ 7 ∷ []) 17
          ∷ [])
unfolding ServesRestore try_pipe InOrder range_of
do_restore_agent-completes_example =
    do_restore_agent-completes flags_of_restore restore_host refl refl
      (λ entry. (refl, refl, refl, refl, refl)) two_oids file_reader two-IsDistinct refl refl
      (λ h. ground arith) (omega arith)
      (omega arith, omega arith, omega arith, (omega arith, omega arith, omega arith, tt))

-- The last byte of the first table is lost in a flush: the agent ends without an error all the same.
abbrev losing_host : RestoreHost
losing_host = record restore_host {
  flush_loses = λ entry. if entry.oid == 16 then some 1 else none;
}

delivered_bytes : Progress → List (List ℕ × Bool)
delivered_bytes (going st) = map (λ d. (d.bytes, d.is_complete)) st.deliveries
delivered_bytes _ = []

lost_bytes_go_unnoticed :
    delivered_bytes (do_restore_agent flags_of_restore losing_host both (take 1 both))
    ≡ (5 ∷ [], false) ∷ (7 ∷ [], true) ∷ []
unfolding do_restore_agent delivered_bytes position_reader copy_data
lost_bytes_go_unnoticed = refl

-- In a resize restore of two batches, a skip file found at the first batch leaves the pipe of the
-- second batch, which the same round has made, to the cleanup behind the loop.
abbrev skipping_flags : RestoreFlags
skipping_flags = record flags_of_restore { orig_size = 2; dest_size = 1; is_resize_restore = true }

abbrev skipping_host : RestoreHost
skipping_host = record restore_host { attempts = λ entry. no_reader true ∷ [] }

second_batch : OidWithBatch
second_batch = record { oid = 16; batch = 1 }

pipes_behind : Progress → List OidWithBatch
pipes_behind (going st) = st.pipes
pipes_behind _ = []

skipped_pipe_stays :
    pipes_behind (
      do_restore_agent skipping_flags skipping_host
        (first_batch 16 ∷ second_batch ∷ [])
        (first_batch 16 ∷ []))
    ≡ second_batch ∷ []
unfolding do_restore_agent second_batch pipes_behind
skipped_pipe_stays = refl
