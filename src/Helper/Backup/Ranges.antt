-- ===== src/Helper/Backup/Ranges.antt =====
-- helper/backup_helper.go: the byte ranges that the agent notes, and the file that it writes.
use gpbackup.Base.{
  ℕ, ◌+◌, ◌%◌, ◌<◌, ◌≡◌, sym, ap, subst, ◌∙◌, inl, inr, Bool, true, false, none, some, List, [],
  ◌∷◌, ◌++◌, arith, nat_comparable, string_comparable, length, length-append,
}
use gpbackup.Base.Maps.{lookup, lookup-put}
use gpbackup.Base.Counting.{contains, IsDistinct}
use gpbackup.Base.Words.{u64}
use mathlib.Core.List.{append_assoc, append-nil}
use gpbackup.Toc.{SegmentToc, add_segment_data_entry}
use gpbackup.Helper.{value, Result-cases}
use gpbackup.Helper.Backup.{
  BackupHost, BackupState, create_next_pipe, copy_table, backup_table, backup_tables, empty_state,
  close_writer, do_backup_agent,
}

-- The tables' bytes, one table behind the other.
unfoldable pub contents : (ℕ → List ℕ) → List ℕ → List ℕ
contents table_data [] = []
contents table_data (oid ∷ later) = table_data oid ++ contents table_data later

-- The entries of the tables cover the file from an offset on, without gaps and in order.
unfoldable pub Tiles : SegmentToc → (ℕ → List ℕ) → List ℕ → ℕ → Type 0
Tiles toc table_data [] from = Unit
Tiles toc table_data (oid ∷ later) from =
    (lookup oid toc.data_entries
      ≡ some (record { start_byte = from; end_byte = from + length (table_data oid) }))
    × Tiles toc table_data later (from + length (table_data oid))

-- The state behind a table, where its round ends well. Only the pipes depend on the host.
unfoldable pub after_table : BackupHost → ℕ → BackupState → List ℕ → BackupState
unfolding add_segment_data_entry
after_table host oid st pipes = record {
  pipes = pipes;
  last_read = (st.last_read + length (host.table_data oid)) % u64;
  toc =
      add_segment_data_entry st.toc oid st.last_read
        ((st.last_read + length (host.table_data oid)) % u64);
  stream = st.stream ++ host.table_data oid;
}

copy_table-after :
    (host : BackupHost) (oid : ℕ) (st after : BackupState)
    → copy_table host oid st ≡ value after
    → after ≡ after_table host oid st after.pipes
unfolding copy_table after_table
copy_table-after host oid st after h = ground arith

create_next_pipe-keeps :
    (host : BackupHost) (copy_queue : ℕ) (oids : List ℕ) (st made : BackupState)
    → create_next_pipe host copy_queue oids st ≡ value made
    → made ≡ record st { pipes = made.pipes }
unfolding create_next_pipe
create_next_pipe-keeps host copy_queue oids st made h = ground arith

backup_table-after :
    (host : BackupHost) (copy_queue : ℕ) (is_first : Bool) (oids : List ℕ) (oid : ℕ)
    (st after : BackupState)
    → backup_table host copy_queue is_first oids oid st ≡ value after
    → after ≡ after_table host oid st after.pipes
unfolding backup_table after_table
backup_table-after host copy_queue is_first oids oid st after h =
    ground (arith, create_next_pipe-keeps host copy_queue oids st, copy_table-after host oid)

-- The loop goes on from that state.
backup_tables-next :
    (host : BackupHost) (copy_queue : ℕ) (is_first : Bool) (oid : ℕ) (later : List ℕ)
    (st after : BackupState)
    → backup_tables host copy_queue is_first (oid ∷ later) st ≡ value after
    → (pipes : List ℕ) × (backup_tables host copy_queue false later (after_table host oid st pipes)
        ≡ value after)
unfolding backup_tables
backup_tables-next host copy_queue is_first oid later st after h =
    elim (Result-cases (backup_table host copy_queue is_first (oid ∷ later) oid st)) [
      | inr (e, fails) ↦ absurd (ground arith)
      | inl (next, goes) ↦ (
        next.pipes,
        rw (sym (backup_table-after host copy_queue is_first (oid ∷ later) oid st next goes))
            (ground arith),
      )
    ]

-- An entry that the later rounds do not name stays as it is.
Keeps : List ℕ → (before after : SegmentToc) → Type 0
Keeps oids before after =
    (other : ℕ)
    → contains other oids ≡ false
    → lookup other after.data_entries ≡ lookup other before.data_entries

backup_tables-Keeps :
    (host : BackupHost) (copy_queue : ℕ) (is_first : Bool) (oids : List ℕ) (st after : BackupState)
    → backup_tables host copy_queue is_first oids st ≡ value after
    → Keeps oids st.toc after.toc
unfolding backup_tables Keeps after_table add_segment_data_entry
backup_tables-Keeps host copy_queue is_first [] st after h other k = ground arith
backup_tables-Keeps host copy_queue is_first (oid ∷ later) st after h other k =
    let (pipes, rest) = backup_tables-next host copy_queue is_first oid later st after h in
    backup_tables-Keeps host copy_queue false later (after_table host oid st pipes) after rest other
      (ground (arith, k))
    ∙ rw
        (lookup-put oid other
          (record {
            start_byte = st.last_read;
            end_byte = (st.last_read + length (host.table_data oid)) % u64;
          })
          st.toc.data_entries)
        (ground (arith, k))

backup_tables-Tiles :
    (host : BackupHost) (copy_queue : ℕ) (is_first : Bool) (oids : List ℕ) (st after : BackupState)
    → backup_tables host copy_queue is_first oids st ≡ value after
    → IsDistinct oids
    → st.last_read + length (contents host.table_data oids) < u64
    → Tiles after.toc host.table_data oids st.last_read
      × (after.stream ≡ st.stream ++ contents host.table_data oids)
unfolding backup_tables Tiles contents Keeps after_table add_segment_data_entry
backup_tables-Tiles host copy_queue is_first [] st after h d fits =
    (tt, ground (arith, append-nil st.stream))
backup_tables-Tiles host copy_queue is_first (oid ∷ later) st after h d fits =
    let (pipes, rest) = backup_tables-next host copy_queue is_first oid later st after h in
    let end = st.last_read + length (host.table_data oid) in
    let wrap : end % u64 ≡ end =
      omega (arith, length-append (host.table_data oid) (contents host.table_data later)) in
    let (tiled, stream) =
      backup_tables-Tiles host copy_queue false later (after_table host oid st pipes) after rest d.1
        (rw wrap
          (omega (arith, length-append (host.table_data oid) (contents host.table_data later)))) in
    (
      (
        backup_tables-Keeps host copy_queue false later (after_table host oid st pipes) after rest
              oid d.0
            ∙ rw
                (
                  lookup-put oid oid (record { start_byte = st.last_read; end_byte = end % u64 })
                      st.toc.data_entries,
                  wrap,
                )
                (ground arith),
        subst (Tiles after.toc host.table_data later) wrap tiled,
      ),
      stream ∙ append_assoc st.stream (host.table_data oid) (contents host.table_data later),
    )

-- Closing the writer leaves the table of contents and the pipes as they are.
close_writer-toc : (host : BackupHost) (st : BackupState) → (close_writer host st).toc ≡ st.toc
unfolding close_writer
close_writer-toc host st = ground arith

do_backup_agent-loop :
    (host : BackupHost) (copy_queue : ℕ) (oids pipes : List ℕ) (after : BackupState)
    → do_backup_agent host copy_queue oids pipes ≡ value after
    → (st : BackupState) × (backup_tables host copy_queue true oids (empty_state pipes) ≡ value st)
      × (close_writer host st ≡ after)
unfolding do_backup_agent
do_backup_agent-loop host copy_queue oids pipes after h =
    elim (Result-cases (backup_tables host copy_queue true oids (empty_state pipes))) [
      | inr (e, fails) ↦ absurd (ground (arith, h, fails))
      | inl (st, runs) ↦ (st, runs, ground (arith, h, runs))
    ]

-- A backup agent that ends without an error, and whose writer is flushed and closed without one,
-- has written the tables one behind the other, and the entries in its table of contents cover the
-- file without gaps, in the order of the tables. The tables are distinct, and all their bytes are
-- fewer than 2^64.
pub do_backup_agent-Tiles :
    (host : BackupHost) (copy_queue : ℕ) (oids pipes : List ℕ) (after : BackupState)
    → do_backup_agent host copy_queue oids pipes ≡ value after
    → host.close_loses ≡ none
    → IsDistinct oids
    → length (contents host.table_data oids) < u64
    → Tiles after.toc host.table_data oids 0 × (after.stream ≡ contents host.table_data oids)
unfolding empty_state close_writer
do_backup_agent-Tiles host copy_queue oids pipes after h closes d fits =
    let (st, runs, closed) = do_backup_agent-loop host copy_queue oids pipes after h in
    let same : st ≡ after = rw closes at closed in
    subst (λ s. Tiles s.toc host.table_data oids 0 × (s.stream ≡ contents host.table_data oids))
      same
      (backup_tables-Tiles host copy_queue true oids (empty_state pipes) st runs d (omega arith))

-- Other tables have no entry.
pub do_backup_agent-others :
    (host : BackupHost) (copy_queue : ℕ) (oids pipes : List ℕ) (after : BackupState) (other : ℕ)
    → do_backup_agent host copy_queue oids pipes ≡ value after
    → contains other oids ≡ false
    → lookup other after.toc.data_entries ≡ none
unfolding empty_state Keeps
do_backup_agent-others host copy_queue oids pipes after other h absent =
    let (st, runs, closed) = do_backup_agent-loop host copy_queue oids pipes after h in
    ap (λ s. lookup other s.toc.data_entries) (sym closed)
    ∙ ap (λ t. lookup other t.data_entries) (close_writer-toc host st)
    ∙ backup_tables-Keeps host copy_queue true oids (empty_state pipes) st runs other absent
