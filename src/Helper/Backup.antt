-- ===== src/Helper/Backup.antt =====
-- helper/backup_helper.go: doBackupAgent reads the pipes of the tables one after the other, writes
-- what it reads into one file, and notes the range of each table in the segment's table of
-- contents. The pipe `<pipe file>_<oid>` is known by its oid. What the host refuses, and what the
-- server writes into a pipe, are parameters; `stream` is what has gone into the writer, and at the
-- end what has reached the file, both before compression, to which the offsets refer.
pub mod Ranges
pub mod Pipes
use gpbackup.Base.{
  take, ℕ, zero, suc, ◌+◌, ◌-◌, ◌*◌, ◌/◌, ◌%◌, ◌≤◌, ◌<◌, String, ◌<>◌, len, slice, ◌≡◌, refl, sym,
  ap, subst, ◌∙◌, ◌≢◌, ◌↔◌, ◌⊎◌, inl, inr, Bool, true, false, not, ◌&&◌, ◌||◌, Option, none, some,
  List, [], ◌∷◌, ◌++◌, map, arith, ltb, leb, nat_beq, if◌then◌else◌, nat_beq_iff, ltb→lt, lt→ltb,
  leb→le, Bool-cases, Option-cases, &&_left, &&_right, Comparable, ◌==◌, nat_comparable,
  string_comparable, ==_refl, ==_sound, ==_sym, length, is_empty, get_elem?, drop, filter, All,
  length-append, filter-append, All-append, All-map,
}
use gpbackup.Base.Counting.{contains, remove}
use gpbackup.Base.Words.{u64}
use gpbackup.Toc.{SegmentToc, add_segment_data_entry}
use gpbackup.Helper.{IoError, failed, Result, value, error}

pub record BackupHost : Type 0 where
  pub is_terminated : ℕ → Bool
  pub mkfifo_error : ℕ → Option IoError
  pub open_error : ℕ → Option IoError
  pub writer_error : Option IoError
  pub table_data : ℕ → List ℕ
  pub copy_error : ℕ → Option IoError
  pub has_plugin : Bool
  pub plugin_error : Option IoError
  pub close_loses : Option ℕ
  pub toc_file_error : Option IoError

pub record BackupState : Type 0 where
  pub pipes : List ℕ
  pub last_read : ℕ
  pub toc : SegmentToc
  pub stream : List ℕ

-- `createPipe`: mkfifo refuses a name that exists.
unfoldable pub create_pipe : Option IoError → ℕ → List ℕ → Result (List ℕ)
create_pipe (some e) oid pipes = error e
create_pipe none oid pipes =
    if contains oid pipes then error (failed "file exists") else value (pipes ++ oid ∷ [])

-- The pipe that stands `copyQueue` tables ahead, where there is one.
unfoldable pub create_next_pipe : BackupHost → ℕ → List ℕ → BackupState → Result BackupState
unfolding create_pipe
create_next_pipe host copy_queue oids st = elim (get_elem? oids copy_queue) [
  | none ↦ value st
  | some next ↦ elim (create_pipe (host.mkfifo_error next) next st.pipes) [
    | value pipes ↦ value (record st { pipes = pipes })
    | error e ↦ error e
  ]
]

-- `os.OpenFile(currentPipe, os.O_RDONLY, os.ModeNamedPipe)`
get_backup_pipe_reader : BackupHost → ℕ → List ℕ → Option IoError
get_backup_pipe_reader host oid pipes =
    if contains oid pipes then host.open_error oid else some (failed "no such file or directory")

-- `io.Copy(pipeWriter, reader)`, the entry of the table, and the removal of its pipe.
unfoldable pub copy_table : BackupHost → ℕ → BackupState → Result BackupState
unfolding add_segment_data_entry
copy_table host oid st = elim (host.copy_error oid) [
  | some e ↦ error e
  | none ↦
      let last_processed = (st.last_read + length (host.table_data oid)) % u64 in
      value (record {
        pipes = remove oid st.pipes;
        last_read = last_processed;
        toc = add_segment_data_entry st.toc oid st.last_read last_processed;
        stream = st.stream ++ host.table_data oid;
      })
]

-- One round of the loop; `is_first` stands for `i == 0`.
unfoldable pub backup_table : BackupHost → ℕ → Bool → List ℕ → ℕ → BackupState → Result BackupState
unfolding create_next_pipe get_backup_pipe_reader copy_table
backup_table host copy_queue is_first oids oid st =
    if host.is_terminated oid
    then error (failed "Terminated due to user request")
    else elim (create_next_pipe host copy_queue oids st) [
      | error e ↦ error e
      | value made ↦ elim (get_backup_pipe_reader host oid made.pipes) [
        | some e ↦ error e
        | none ↦ elim (if is_first then host.writer_error else none) [
          | some e ↦ error e
          | none ↦ copy_table host oid made
        ]
      ]
    ]

unfoldable pub backup_tables : BackupHost → ℕ → Bool → List ℕ → BackupState → Result BackupState
unfolding backup_table
backup_tables host copy_queue is_first [] st = value st
backup_tables host copy_queue is_first (oid ∷ later) st =
    elim (backup_table host copy_queue is_first (oid ∷ later) oid st) [
      | value next ↦ backup_tables host copy_queue false later next
      | error e ↦ error e
    ]

-- `pipes` are those that gpbackup has made before the agent starts.
unfoldable pub empty_state : List ℕ → BackupState
empty_state pipes = record {
  pipes = pipes;
  last_read = 0;
  toc = record { data_entries = [] };
  stream = [];
}

-- `pipeWriter.Close()`, which suppresses the errors of the flush and of the close: `close_loses` is
-- the number of bytes that stay behind in the buffers when one of them fails.
unfoldable pub close_writer : BackupHost → BackupState → BackupState
close_writer host st = elim host.close_loses [
  | none ↦ st
  | some n ↦ record st { stream = take (length st.stream - n) st.stream }
]

unfoldable pub do_backup_agent : BackupHost → ℕ → List ℕ → List ℕ → Result BackupState
unfolding backup_tables empty_state close_writer
do_backup_agent host copy_queue oids pipes =
    elim (backup_tables host copy_queue true oids (empty_state pipes)) [
      | error e ↦ error e
      | value st ↦ elim (if host.has_plugin then host.plugin_error else none) [
        | some e ↦ error e
        | none ↦ elim host.toc_file_error [ some e ↦ error e | none ↦ value (close_writer host st) ]
      ]
    ]
