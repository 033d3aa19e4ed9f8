-- ===== src/Helper/Backup/Pipes.antt =====
-- helper/backup_helper.go: the pipes of the copy queue. When the host refuses nothing, every pipe
-- is there when the agent opens it, and none is left behind.
use gpbackup.Base.{
  take, ℕ, suc, ◌≡◌, refl, sym, ◌∙◌, inl, inr, Bool, true, false, none, List, [], ◌∷◌, arith,
  Option-cases, nat_comparable, string_comparable, ==_refl, get_elem?,
}
use gpbackup.Base.Counting.{IsDistinct}
use gpbackup.Helper.{value}
use gpbackup.Helper.Backup.{
  BackupHost, BackupState, create_pipe, create_next_pipe, get_backup_pipe_reader, copy_table,
  backup_table, backup_tables, empty_state, close_writer, do_backup_agent,
}
use gpbackup.Helper.Backup.Ranges.{after_table}
use gpbackup.Base.Windows.{take-last, take-all, contains-take, take-nil}

-- Nothing that the agent asks of the host fails, and no signal ends the agent.
unfoldable pub Serves : BackupHost → Type 0
Serves host =
    ((oid : ℕ) → host.is_terminated oid ≡ false)
    × ((oid : ℕ) → host.mkfifo_error oid ≡ none)
    × ((oid : ℕ) → host.open_error oid ≡ none)
    × (host.writer_error ≡ none)
    × ((oid : ℕ) → host.copy_error oid ≡ none)
    × (host.plugin_error ≡ none)
    × (host.toc_file_error ≡ none)

create_next_pipe-take :
    (host : BackupHost) (copy_queue : ℕ) (oids : List ℕ) (st : BackupState)
    → Serves host
    → IsDistinct oids
    → st.pipes ≡ take copy_queue oids
    → create_next_pipe host copy_queue oids st
      ≡ value (record st { pipes = take (suc copy_queue) oids })
unfolding create_next_pipe create_pipe Serves
create_next_pipe-take host copy_queue oids st serves d h =
    elim (Option-cases (get_elem? oids copy_queue)) [
      | inl past ↦ rw (past, sym (take-all copy_queue oids past), sym h, create_next_pipe) refl
      | inr (next, found) ↦
          rw
            (
              found,
              serves.1 next,
              h,
              contains-take copy_queue oids next found d,
              take-last copy_queue oids next found,
              create_next_pipe,
              create_pipe,
            )
            refl
    ]

backup_table-take :
    (host : BackupHost) (copy_queue : ℕ) (is_first : Bool) (oid : ℕ) (later : List ℕ)
    (st : BackupState)
    → Serves host
    → IsDistinct (oid ∷ later)
    → st.pipes ≡ take copy_queue (oid ∷ later)
    → backup_table host copy_queue is_first (oid ∷ later) oid st
      ≡ value (after_table host oid st (take copy_queue later))
unfolding backup_table get_backup_pipe_reader copy_table after_table Serves
backup_table-take host copy_queue is_first oid later st serves d h =
    rw
      (
        serves.0 oid,
        create_next_pipe-take host copy_queue (oid ∷ later) st serves d h,
        ==_refl oid,
        serves.2 oid,
      )
      (ground (arith, serves.3, serves.4 oid, ==_refl oid))

backup_tables-take :
    (host : BackupHost) (copy_queue : ℕ) (is_first : Bool) (oids : List ℕ) (st : BackupState)
    → Serves host
    → IsDistinct oids
    → st.pipes ≡ take copy_queue oids
    → (after : BackupState) × (backup_tables host copy_queue is_first oids st ≡ value after)
      × (after.pipes ≡ [])
unfolding backup_tables after_table
backup_tables-take host copy_queue is_first [] st serves d h = (st, refl, h ∙ take-nil copy_queue)
backup_tables-take host copy_queue is_first (oid ∷ later) st serves d h =
    let next = after_table host oid st (take copy_queue later) in
    let (after, runs, emptied) =
      backup_tables-take host copy_queue false later next serves d.1 refl in
    (
      after,
      rw (backup_table-take host copy_queue is_first oid later st serves d h, backup_tables) runs,
      emptied,
    )

close_writer-pipes :
    (host : BackupHost) (st : BackupState) → (close_writer host st).pipes ≡ st.pipes
unfolding close_writer
close_writer-pipes host st = ground arith

do_backup_agent-after :
    (host : BackupHost) (copy_queue : ℕ) (oids pipes : List ℕ) (after : BackupState)
    → Serves host
    → backup_tables host copy_queue true oids (empty_state pipes) ≡ value after
    → do_backup_agent host copy_queue oids pipes ≡ value (close_writer host after)
unfolding do_backup_agent Serves
do_backup_agent-after host copy_queue oids pipes after serves runs =
    ground (arith, serves.5, serves.6)

-- When the host refuses nothing and the first pipes of the copy queue are made before the agent
-- starts, the agent ends without an error and leaves no pipe behind: each pipe is there when its
-- table comes, none is made twice, and each is removed. The tables are distinct.
pub do_backup_agent-completes :
    (host : BackupHost) (copy_queue : ℕ) (oids : List ℕ)
    → Serves host
    → IsDistinct oids
    → (after : BackupState) × (do_backup_agent host copy_queue oids (take copy_queue oids)
        ≡ value after)
      × (after.pipes ≡ [])
unfolding empty_state
do_backup_agent-completes host copy_queue oids serves d =
    let pipes = take copy_queue oids in
    let (after, runs, emptied) =
      backup_tables-take host copy_queue true oids (empty_state pipes) serves d refl in
    (
      close_writer host after,
      do_backup_agent-after host copy_queue oids pipes after serves runs,
      close_writer-pipes host after ∙ emptied,
    )
