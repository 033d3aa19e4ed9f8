-- ===== src/Helper/Restore/Loop.antt =====
-- helper/restore_helper.go: the loop of doRestoreAgentInternal over the entries.
use gpbackup.Base.{
  ℕ, Option, none, some, List, [], ◌∷◌, if◌then◌else◌, nat_comparable, string_comparable,
}
use gpbackup.Base.Results.{ok, fatal}
use gpbackup.Helper.{failed, Result, value, error}
use gpbackup.Helper.Reader.{RestoreReader}
use gpbackup.Helper.Restore.{
  OidWithBatch, RestoreFlags, RestoreHost, AgentState, Progress, going, returned, waiting, panicked,
  batches, open_readers, is_skipped,
}
use gpbackup.Helper.Restore.Agent.{
  opened, skip_found, still_waiting, cannot_open, create_next_pipe, open_table_reader,
  get_restore_pipe_writer, skip_entry, end_entry, position_entry, copy_entry, note_copy, copy_error,
  flush_writer, written_bytes, ends_well,
}

-- A step that may return from the function, and what follows it.
abbrev pub on_value : Result AgentState → AgentState → (AgentState → Progress) → Progress
on_value (value st) before next = next st
on_value (error e) before next = returned e before

abbrev pub and_then : Progress → (AgentState → Progress) → Progress
and_then (going st) next = next st
and_then (returned e st) next = returned e st
and_then (waiting st) next = waiting st
and_then (panicked e) next = panicked e

unfoldable pub copy_and_end : RestoreFlags → RestoreHost → OidWithBatch → AgentState → Progress
unfolding copy_entry note_copy copy_error flush_writer end_entry
copy_and_end flags host entry st = elim (copy_entry flags host entry st) [
  | fatal e ↦ panicked e
  | ok copied ↦ end_entry flags host entry (copy_error copied) (
      flush_writer host entry (written_bytes copied) (ends_well copied)
        (note_copy flags host entry copied st))
]

unfoldable pub transfer_entry : RestoreFlags → RestoreHost → OidWithBatch → AgentState → Progress
unfolding position_entry copy_and_end
transfer_entry flags host entry st =
    and_then (position_entry flags host entry st) (copy_and_end flags host entry)

unfoldable pub feed_entry : RestoreFlags → RestoreHost → OidWithBatch → AgentState → Progress
unfolding get_restore_pipe_writer skip_entry end_entry transfer_entry
feed_entry flags host entry st = elim (get_restore_pipe_writer flags host entry st) [
  | still_waiting ↦ waiting st
  | cannot_open e ↦ returned e st
  | skip_found ↦ elim (skip_entry flags host entry st) [
    | fatal e ↦ panicked e
    | ok (skipped, err) ↦ end_entry flags host entry err skipped
  ]
  | opened ↦ transfer_entry flags host entry st
]

-- One round; `entries` are this entry and those behind it.
unfoldable pub restore_entry :
    RestoreFlags → RestoreHost → List OidWithBatch → OidWithBatch → AgentState → Progress
unfolding create_next_pipe open_table_reader feed_entry end_entry
restore_entry flags host entries entry st =
    if host.is_terminated entry
    then returned (failed "Terminated due to user request") st
    else on_value (create_next_pipe flags host entries st) st (λ made.
      if is_skipped entry.oid made
      then end_entry flags host entry none made
      else on_value (open_table_reader flags host entry made) made (feed_entry flags host entry))

unfoldable pub restore_entries :
    RestoreFlags → RestoreHost → List OidWithBatch → AgentState → Progress
unfolding restore_entry
restore_entries flags host [] st = going st
restore_entries flags host (entry ∷ later) st =
    and_then (restore_entry flags host (entry ∷ later) entry st) (restore_entries flags host later)

-- `pipes` are those that gprestore has made before the agent starts.
unfoldable pub start_state : List OidWithBatch → (ℕ → Option RestoreReader) → AgentState
start_state pipes readers = record {
  pipes = pipes;
  readers = readers;
  last_byte = λ c. 0;
  skip_oid = none;
  last_error = none;
  deliveries = [];
}

-- `return lastError`
unfoldable pub return_last_error : AgentState → Progress
return_last_error st = elim st.last_error [ none ↦ going st | some e ↦ returned e st ]

unfoldable pub do_restore_agent :
    RestoreFlags → RestoreHost → List OidWithBatch → List OidWithBatch → Progress
unfolding restore_entries start_state return_last_error open_readers batches
do_restore_agent flags host entries pipes =
    let none_open : ℕ → Option RestoreReader = λ c. none in
    elim (if flags.single_data_file
      then open_readers flags host entries (batches flags) 0 none_open
      else value none_open) [
        | error e ↦ returned e (start_state pipes none_open)
        | value readers ↦
            and_then (restore_entries flags host entries (start_state pipes readers))
              return_last_error
      ]
