-- ===== src/Helper/Restore/Completion.antt =====
-- helper/restore_helper.go: when nothing fails, the agent fills every pipe and ends.
use gpbackup.Base.{
  take, ℕ, ◌<◌, ◌≡◌, refl, sym, subst, ◌∙◌, ◌≢◌, true, false, Option, none, some, List, [], ◌∷◌,
  ◌++◌, map, arith, nat_comparable, string_comparable, ==_refl, length,
}
use gpbackup.Base.Counting.{contains, IsDistinct}
use gpbackup.Base.Windows.{take-nil}
use gpbackup.Base.Words.{i64_limit}
use mathlib.Core.List.{append_assoc, append-nil}
use gpbackup.Helper.{value}
use gpbackup.Helper.Reader.{subset, RestoreReader}
use gpbackup.Helper.Restore.{
  OidWithBatch, entry_comparable, RestoreFlags, RestoreHost, AgentState, going, assign, batches,
  content_of, is_beyond, oids_of_batch, open_readers,
}
use gpbackup.Helper.Restore.Agent.{note_copy, flush_writer}
use gpbackup.Helper.Restore.Loop.{restore_entries, start_state, return_last_error, do_restore_agent}
use gpbackup.Helper.Restore.Service.{
  Serves, first_batch, InOrder, whole_copy, moved_to, IsAhead, served, at_end, whole_delivery,
  served-last_byte, served-reader, served-deliveries, restore_entry-served,
}

contains-first_batch :
    (oid : ℕ) (oids : List ℕ)
    → contains (first_batch oid) (map first_batch oids) ≡ contains oid oids
contains-first_batch oid [] = refl
contains-first_batch oid (o ∷ oids) = ground (arith, contains-first_batch oid oids)

map-IsDistinct : (oids : List ℕ) → IsDistinct oids → IsDistinct (map first_batch oids)
map-IsDistinct [] d = tt
map-IsDistinct (oid ∷ oids) d = (contains-first_batch oid oids ∙ d.0, map-IsDistinct oids d.1)

module _ (flags : RestoreFlags) (host : RestoreHost) (sdf : flags.single_data_file ≡ true)
    (same_size : flags.is_resize_restore ≡ false) (serves : Serves flags host) where
  restore_entries-completes :
      (oids : List ℕ) (st : AgentState) (r : RestoreReader)
      → IsDistinct oids
      → st.readers (content_of flags 0) ≡ some r
      → r.position ≡ st.last_byte (content_of flags 0)
      → r.reader_type ≢ subset
      → length r.source < i64_limit
      → InOrder host (content_of flags 0) (length r.source) (st.last_byte (content_of flags 0)) oids
      → st.skip_oid ≡ none
      → st.pipes ≡ take flags.copy_queue (map first_batch oids)
      → (after : AgentState) × (restore_entries flags host (map first_batch oids) st ≡ going after)
        × (after.pipes ≡ [])
        × (after.last_error ≡ st.last_error)
        × (after.deliveries
            ≡ st.deliveries ++ map (whole_delivery host (content_of flags 0) r.source) oids)
  unfolding restore_entries served moved_to note_copy flush_writer at_end whole_copy InOrder IsAhead
  restore_entries-completes [] st r d here position other limit order fresh h =
      (st, refl, h ∙ take-nil flags.copy_queue, refl, sym (append-nil st.deliveries))
  restore_entries-completes (oid ∷ later) st r d here position other limit order fresh h =
      let (ahead, ordered, room, rest) = order in
      let next = served flags host sdf same_size serves oid (map first_batch later) r st in
      let goes =
        restore_entry-served flags host sdf same_size serves oid (map first_batch later) st r
          (map-IsDistinct (oid ∷ later) d) here (position, other, limit, ahead, ordered, room) fresh
          h in
      let last =
        served-last_byte flags host sdf same_size serves oid (map first_batch later) r st in
      let (after, runs, emptied, err, all) =
        restore_entries-completes later next (at_end host (content_of flags 0) oid r) d.1
          (served-reader flags host sdf same_size serves oid (map first_batch later) r st ordered
            room limit)
          (sym last) other limit
          (subst (λ from. InOrder host (content_of flags 0) (length r.source) from later) (sym last)
            rest)
          fresh refl in
      (
        after,
        rw (goes, restore_entries) runs,
        emptied,
        err,
        all
            ∙ rw
                (served-deliveries flags host sdf same_size serves oid (map first_batch later) r st
                  ordered room limit)
                (append_assoc st.deliveries
                  (whole_delivery host (content_of flags 0) r.source oid ∷ [])
                  (map (whole_delivery host (content_of flags 0) r.source) later)),
      )

  opens_one :
      (entries : List OidWithBatch) (r : RestoreReader)
      → host.sdf_reader (content_of flags 0) (oids_of_batch 0 entries) ≡ value r
      → open_readers flags host entries (batches flags) 0 (λ c. none)
        ≡ value (assign (content_of flags 0) (some r) (λ c. none))
  unfolding open_readers batches
  opens_one entries r opens =
      let one : batches flags ≡ 1 = ground (arith, same_size) in
      let within : is_beyond flags (content_of flags 0) ≡ false = ground (arith, same_size) in
      rw (one, open_readers, within, opens) refl

  do_restore_agent-after :
      (entries pipes : List OidWithBatch) (readers : ℕ → Option RestoreReader) (after : AgentState)
      → open_readers flags host entries (batches flags) 0 (λ c. none) ≡ value readers
      → restore_entries flags host entries (start_state pipes readers) ≡ going after
      → after.last_error ≡ none
      → do_restore_agent flags host entries pipes ≡ going after
  unfolding do_restore_agent return_last_error
  do_restore_agent-after entries pipes readers after opens runs err =
      ground (arith, sdf, opens, runs, err)

  -- A restore from a single data file to a cluster of the same size ends without an error, leaves
  -- no pipe behind, and has written each table's bytes into its pipe, in the order of the list,
  -- when the host refuses nothing, COPY comes for every pipe and reads it to its end. The tables are distinct, their
  -- ranges follow each other in the file, which is read from its first byte by a reader of the
  -- whole file, and the first pipes of the copy queue are made before the agent starts.
  pub do_restore_agent-completes :
      (oids : List ℕ) (r : RestoreReader)
      → IsDistinct oids
      → host.sdf_reader (content_of flags 0) (oids_of_batch 0 (map first_batch oids)) ≡ value r
      → r.position ≡ 0
      → r.reader_type ≢ subset
      → length r.source < i64_limit
      → InOrder host (content_of flags 0) (length r.source) 0 oids
      → (after : AgentState) × (do_restore_agent flags host
            (map first_batch oids)
            (take flags.copy_queue (map first_batch oids))
          ≡ going after)
        × (after.pipes ≡ [])
        × (after.deliveries ≡ map (whole_delivery host (content_of flags 0) r.source) oids)
  unfolding start_state
  do_restore_agent-completes oids r d opens position other limit order =
      let entries = map first_batch oids in
      let readers : ℕ → Option RestoreReader = assign (content_of flags 0) (some r) (λ c. none) in
      let start = start_state (take flags.copy_queue entries) readers in
      let (after, runs, emptied, err, all) =
        restore_entries-completes oids start r d (ground (arith, ==_refl (content_of flags 0)))
          position other limit order refl refl in
      let opened_all : open_readers flags host entries (batches flags) 0 (λ c. none)
          ≡ value readers =
        opens_one entries r opens in
      (
        after,
        do_restore_agent-after entries (take flags.copy_queue entries) readers after opened_all runs
            err,
        emptied,
        all,
      )
