-- ===== src/Helper/Restore/Agent.antt =====
-- helper/restore_helper.go: one round of the loop of doRestoreAgentInternal, and the loop.
use gpbackup.Base.{
  ℕ, zero, suc, ◌+◌, ◌-◌, ◌%◌, Bool, true, false, not, ◌&&◌, Option, none, some, List, [], ◌∷◌,
  ◌++◌, take, length, ltb, if◌then◌else◌, nat_comparable, string_comparable, get_elem?,
}
use gpbackup.Base.Results.{Outcome, ok, fatal, ◌>>=◌}
use gpbackup.Base.Counting.{contains, remove}
use gpbackup.Base.Words.{u64}
use gpbackup.Helper.{IoError, failed, Result, value, error}
use gpbackup.Helper.Reader.{
  subset, RestoreReader, Copied, position_reader, discard_data, copy_data, copy_all_data,
}
use gpbackup.Helper.Restore.{
  OidWithBatch, entry_comparable, RestoreFlags, Attempt, connected, no_reader, refused, RestoreHost,
  AgentState, Progress, going, returned, panicked, assign, batches, content_of, is_beyond, range_of,
  range_size, is_skipped,
}

-- `createPipe` for the entry that stands `copyQueue` entries ahead, unless its table is skipped.
-- mkfifo refuses a name that exists.
unfoldable pub create_next_pipe :
    RestoreFlags → RestoreHost → List OidWithBatch → AgentState → Result AgentState
create_next_pipe flags host entries st = elim (get_elem? entries flags.copy_queue) [
  | none ↦ value st
  | some next ↦ if is_skipped next.oid st then value st else elim (host.mkfifo_error next) [
    | some e ↦ error e
    | none ↦
        if contains next st.pipes
        then error (failed "file exists")
        else value (record st { pipes = st.pipes ++ next ∷ [] })
  ]
]

-- With one data file per table, the file of a table of a resized cluster is opened in its turn.
unfoldable pub open_table_reader :
    RestoreFlags → RestoreHost → OidWithBatch → AgentState → Result AgentState
open_table_reader flags host entry st =
    let c = content_of flags entry.batch in
    if not flags.single_data_file && (flags.is_resize_restore && ltb c flags.orig_size)
    then elim (host.table_reader c entry.oid) [
      | error e ↦ error e
      | value r ↦ value (record st { readers = assign c (some r) st.readers })
    ]
    else value st

pub data Opening : Type 0 where
  opened skip_found still_waiting : Opening
  cannot_open : IoError → Opening

-- The loop that opens the pipe for writing.
unfoldable pub try_pipe : Bool → List Attempt → Opening
try_pipe on_error_continue [] = still_waiting
try_pipe on_error_continue (connected ∷ later) = opened
try_pipe on_error_continue (refused e ∷ later) = cannot_open e
try_pipe on_error_continue (no_reader has_skip_file ∷ later) =
    let rest = try_pipe on_error_continue later in
    if on_error_continue && has_skip_file then skip_found else rest

unfoldable pub get_restore_pipe_writer :
    RestoreFlags → RestoreHost → OidWithBatch → AgentState → Opening
unfolding try_pipe
get_restore_pipe_writer flags host entry st =
    if contains entry st.pipes
    then try_pipe flags.on_error_continue (host.attempts entry)
    else cannot_open (failed "no such file or directory")

-- The table's data in the remaining batches is passed over where the plugin sends only what is
-- restored. The error is that of the last batch that was passed over.
unfoldable pub discard_batches :
    RestoreFlags
    → RestoreHost
    → ℕ
    → (left batch : ℕ) → (ℕ → Option RestoreReader) × Option IoError
    → Outcome ((ℕ → Option RestoreReader) × Option IoError)
unfolding discard_data range_of
discard_batches flags host oid zero batch st = ok st
discard_batches flags host oid (suc left) batch (readers, err) =
    let c = content_of flags batch in
    elim (readers c) [
      | none ↦ discard_batches flags host oid left (suc batch) (readers, err)
      | some r ↦ elim r.reader_type [
        | subset ↦ discard_data (range_size (range_of host c oid)) r >>= λ d.
            discard_batches flags host oid left (suc batch)
              (assign c (some d.reader) readers, d.err)
        | _ ↦ discard_batches flags host oid left (suc batch) (readers, err)
      ]
    ]

unfoldable pub delete_pipes :
    RestoreFlags → ℕ → (left batch : ℕ) → List OidWithBatch → List OidWithBatch
unfolding batches
delete_pipes flags oid zero batch pipes = pipes
delete_pipes flags oid (suc left) batch pipes = delete_pipes flags oid left (suc batch) (
    if ltb batch (batches flags) then remove (record { oid = oid; batch = batch }) pipes else pipes)

-- A skip file: gprestore has given up the table.
unfoldable pub skip_entry :
    RestoreFlags → RestoreHost → OidWithBatch → AgentState → Outcome (AgentState × Option IoError)
unfolding discard_batches delete_pipes batches
skip_entry flags host entry st =
    (if flags.single_data_file
      then discard_batches flags host entry.oid (batches flags - entry.batch) entry.batch
          (st.readers, none)
      else ok (st.readers, none))
    >>= λ discarded. ok (
      record st {
        skip_oid = some entry.oid;
        readers = discarded.0;
        pipes = delete_pipes flags entry.oid flags.copy_queue entry.batch st.pipes;
      },
      discarded.1,
    )

-- `waitForPlugin` of a file that only one entry reads, and the error that it leaves.
unfoldable pub plugin_error :
    RestoreFlags → RestoreHost → OidWithBatch → Option IoError → AgentState → Option IoError
plugin_error flags host entry err st =
    if flags.single_data_file then err else elim (st.readers (content_of flags entry.batch)) [
      | none ↦ err
      | some r ↦ elim (host.plugin_exit entry) [ none ↦ err | some e ↦ some e ]
    ]

-- `LoopEnd`: the pipe is deleted, when `flush_writer` has written the rest of a copy, the plugin of the file is waited for, and an error
-- ends the agent or is kept.
unfoldable pub end_entry :
    RestoreFlags → RestoreHost → OidWithBatch → Option IoError → AgentState → Progress
unfolding plugin_error
end_entry flags host entry err st =
    let closed =
      if is_skipped entry.oid st then st else record st { pipes = remove entry st.pipes } in
    elim (plugin_error flags host entry err st) [
      | none ↦ going closed
      | some e ↦
          if flags.on_error_continue
          then going (record closed { last_error = some e })
          else returned e closed
    ]

-- With a single data file, the reader goes on from the last byte to the first of the table.
unfoldable pub position_entry : RestoreFlags → RestoreHost → OidWithBatch → AgentState → Progress
unfolding range_of
position_entry flags host entry st =
    let c = content_of flags entry.batch in
    if flags.single_data_file && not (is_beyond flags c)
    then elim (st.readers c) [
      | none ↦ panicked "nil reader"
      | some r ↦
          elim (position_reader
            (((range_of host c entry.oid).start_byte + u64 - st.last_byte c) % u64) r) [
              | error e ↦ returned e st
              | value positioned ↦
                  going (record st { readers = assign c (some positioned) st.readers })
            ]
    ]
    else going st

-- The copy of the table's bytes into the pipe, by the kind of the restore.
unfoldable pub copy_entry :
    RestoreFlags → RestoreHost → OidWithBatch → AgentState → Outcome (Option Copied)
unfolding range_of
copy_entry flags host entry st =
    let c = content_of flags entry.batch in
    if is_beyond flags c then ok none else elim (st.readers c) [
      | none ↦ fatal "nil reader"
      | some r ↦
          if flags.is_resize_restore && not flags.single_data_file
          then ok (some (copy_all_data (host.breaks entry) r))
          else copy_data flags.on_error_continue (host.breaks entry)
              (range_size (
                if flags.single_data_file
                then range_of host c entry.oid
                else record { start_byte = 0; end_byte = 0 }))
              r
            >>= λ copied. ok (some copied)
    ]

abbrev pub is_done : Copied → Bool
is_done copied = elim copied.err [ none ↦ true | some _ ↦ false ]

-- `lastByte`. For a content id that the backup does not have, `end` is
-- zero, since there is no table of contents.
unfoldable pub note_copy :
    RestoreFlags → RestoreHost → OidWithBatch → Option Copied → AgentState → AgentState
unfolding range_of
note_copy flags host entry none st = record st {
  last_byte =
      if flags.single_data_file
      then assign (content_of flags entry.batch) 0 st.last_byte
      else st.last_byte;
}
note_copy flags host entry (some copied) st =
    let c = content_of flags entry.batch in
    let range = range_of host c entry.oid in
    let is_complete = is_done copied in
    let last =
      if is_complete then range.end_byte else (range.start_byte + copied.bytes_read) % u64 in
    record st {
      readers = assign c (some copied.reader) st.readers;
      last_byte = if flags.single_data_file then assign c last st.last_byte else st.last_byte;
    }

-- `flushAndCloseRestoreWriter`, with which `closeAndDeletePipe` starts: what the copy has left in
-- the buffer goes into the pipe. An error of the flush is logged and dropped; the bytes that are
-- still in the buffer are lost.
unfoldable pub flush_writer : RestoreHost → OidWithBatch → List ℕ → Bool → AgentState → AgentState
flush_writer host entry written is_complete st = record st {
  deliveries =
      st.deliveries
      ++ elim (host.flush_loses entry) [
        | none ↦ record { entry = entry; bytes = written; is_complete = is_complete }
        | some lost ↦ record {
          entry = entry;
          bytes = take (length written - lost) written;
          is_complete = false;
        }
      ]
        ∷ [];
}

abbrev pub written_bytes : Option Copied → List ℕ
written_bytes none = []
written_bytes (some copied) = copied.bytes

abbrev pub ends_well : Option Copied → Bool
ends_well none = true
ends_well (some copied) = is_done copied

unfoldable pub copy_error : Option Copied → Option IoError
copy_error none = none
copy_error (some copied) = copied.err
