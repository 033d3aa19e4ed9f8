-- ===== src/Helper/Restore/Service.antt =====
-- helper/restore_helper.go: one round of the agent when nothing fails.
use gpbackup.Base.{
  take, ℕ, suc, ◌+◌, ◌-◌, ◌%◌, ◌≤◌, ◌<◌, ◌≡◌, refl, sym, ap, subst, ◌∙◌, ◌≢◌, inl, inr, true, false,
  none, some, List, [], ◌∷◌, ◌++◌, arith, Option-cases, nat_comparable, string_comparable, ==_refl,
  length, get_elem?, drop,
}
use gpbackup.Base.Results.{ok}
use gpbackup.Base.Counting.{contains, remove, IsDistinct}
use gpbackup.Base.Windows.{take-last, take-all, contains-take}
use gpbackup.Base.Words.{i64_limit, u64}
use gpbackup.Toc.{SegmentDataEntry}
use gpbackup.Helper.{value}
use gpbackup.Helper.Reader.{
  subset, RestoreReader, Copied, position_reader, copy_data, advance, unread,
}
use gpbackup.Helper.Reader.Copies.{position_reader-reaches, copy_n-whole, length-drop}
use gpbackup.Helper.Restore.{
  OidWithBatch, entry_comparable, RestoreFlags, RestoreHost, Delivery, AgentState, going, assign,
  content_of, range_of, range_size, is_skipped,
}
use gpbackup.Helper.Restore.Agent.{
  opened, try_pipe, create_next_pipe, open_table_reader, get_restore_pipe_writer, plugin_error,
  end_entry, position_entry, copy_entry, note_copy, copy_error, flush_writer,
}
use gpbackup.Helper.Restore.Loop.{copy_and_end, transfer_entry, feed_entry, restore_entry}

-- Nothing that the agent asks of the host fails, and COPY comes for every pipe.
unfoldable pub Serves : RestoreFlags → RestoreHost → Type 0
Serves flags host =
    (entry : OidWithBatch)
    → (host.is_terminated entry ≡ false)
      × (host.mkfifo_error entry ≡ none)
      × (try_pipe flags.on_error_continue (host.attempts entry) ≡ opened)
      × (host.breaks entry ≡ none)
      × (host.flush_loses entry ≡ none)

abbrev pub first_batch : ℕ → OidWithBatch
first_batch oid = record { oid = oid; batch = 0 }

-- The tables' ranges follow each other in the file, from an offset on.
unfoldable pub InOrder : RestoreHost → ℕ → ℕ → ℕ → List ℕ → Type 0
InOrder host c size from [] = Unit
InOrder host c size from (oid ∷ later) =
    (from ≤ (range_of host c oid).start_byte)
    × ((range_of host c oid).start_byte ≤ (range_of host c oid).end_byte)
    × ((range_of host c oid).end_byte ≤ size)
    × InOrder host c size (range_of host c oid).end_byte later

-- The bytes of a table in the file.
unfoldable pub table_bytes : RestoreHost → ℕ → List ℕ → ℕ → List ℕ
table_bytes host c file oid =
    take ((range_of host c oid).end_byte - (range_of host c oid).start_byte)
      (drop (range_of host c oid).start_byte file)

-- What a pipe receives, when nothing fails.
unfoldable pub whole_delivery : RestoreHost → ℕ → List ℕ → ℕ → Delivery
unfolding table_bytes
whole_delivery host c file oid = record {
  entry = first_batch oid;
  bytes = table_bytes host c file oid;
  is_complete = true;
}

-- A reader behind a table.
unfoldable pub at_end : RestoreHost → ℕ → ℕ → RestoreReader → RestoreReader
unfolding range_of
at_end host c oid r = record r { position = (range_of host c oid).end_byte }

size_difference :
    (range : SegmentDataEntry) (limit : ℕ)
    → range.start_byte ≤ range.end_byte
    → range.end_byte ≤ limit
    → limit < i64_limit
    → range_size range ≡ range.end_byte - range.start_byte
size_difference range limit ordered room low = omega arith

module _ (flags : RestoreFlags) (host : RestoreHost) (sdf : flags.single_data_file ≡ true)
    (same_size : flags.is_resize_restore ≡ false) (serves : Serves flags host) where
  create_next_pipe-take :
      (entries : List OidWithBatch) (st : AgentState)
      → IsDistinct entries
      → st.skip_oid ≡ none
      → st.pipes ≡ take flags.copy_queue entries
      → create_next_pipe flags host entries st
        ≡ value (record st { pipes = take (suc flags.copy_queue) entries })
  unfolding create_next_pipe Serves
  create_next_pipe-take entries st d fresh h =
      elim (Option-cases (get_elem? entries flags.copy_queue)) [
        | inl past ↦
            rw (past, sym (take-all flags.copy_queue entries past), sym h, create_next_pipe) refl
        | inr (next, found) ↦
            let absent = contains-take flags.copy_queue entries next found d in
            let longer = take-last flags.copy_queue entries next found in
            rw (sym longer, sym h)
              (ground (
                arith,
                found,
                fresh,
                (serves next).1,
                subst (λ p. contains next p ≡ false) (sym h) absent,
              ))
      ]

  -- The reader behind the move to a table, and the copy of all its bytes.
  unfoldable pub at_start : ℕ → RestoreReader → RestoreReader
  at_start oid r = record r { position = (range_of host (content_of flags 0) oid).start_byte }

  unfoldable pub whole_copy : ℕ → RestoreReader → Copied
  unfolding at_start
  whole_copy oid r =
      let size = range_size (range_of host (content_of flags 0) oid) in
      record {
        bytes_read = size;
        bytes = take size (unread (at_start oid r));
        err = none;
        reader = advance size (at_start oid r);
      }

  unfoldable pub moved_to : ℕ → RestoreReader → AgentState → AgentState
  unfolding at_start
  moved_to oid r st = record st {
    readers = assign (content_of flags 0) (some (at_start oid r)) st.readers;
  }

  -- A table whose range lies in the file, not before the reader.
  unfoldable pub IsAhead : ℕ → RestoreReader → ℕ → Type 0
  IsAhead oid r from =
      (r.position ≡ from)
      × (r.reader_type ≢ subset)
      × (length r.source < i64_limit)
      × (from ≤ (range_of host (content_of flags 0) oid).start_byte)
      × ((range_of host (content_of flags 0) oid).start_byte
          ≤ (range_of host (content_of flags 0) oid).end_byte)
      × ((range_of host (content_of flags 0) oid).end_byte ≤ length r.source)

  position_entry-moves :
      (oid : ℕ) (st : AgentState) (r : RestoreReader)
      → st.readers (content_of flags 0) ≡ some r
      → IsAhead oid r (st.last_byte (content_of flags 0))
      → position_entry flags host (first_batch oid) st ≡ going (moved_to oid r st)
  unfolding position_entry moved_to at_start IsAhead
  position_entry-moves oid st r here (position, other, limit, ahead, order, room) =
      let reached =
        position_reader-reaches (range_of host (content_of flags 0) oid).start_byte r other
          (omega (arith, position, ahead)) (omega (arith, order, room)) limit in
      let moves =
        subst
          (λ p.
            position_reader (((range_of host (content_of flags 0) oid).start_byte + u64 - p) % u64)
              r
            ≡ value (at_start oid r))
          position reached in
      ground (arith, sdf, same_size, here, moves)

  copy_entry-whole :
      (oid : ℕ) (st : AgentState) (r : RestoreReader) (from : ℕ)
      → IsAhead oid r from
      → copy_entry flags host (first_batch oid) (moved_to oid r st) ≡ ok (some (whole_copy oid r))
  unfolding copy_entry copy_data moved_to whole_copy at_start IsAhead Serves
  copy_entry-whole oid st r from (position, other, limit, ahead, order, room) =
      let size = range_size (range_of host (content_of flags 0) oid) in
      let whole = copy_n-whole size (at_start oid r) (ground (arith, order, room, limit)) (
        rw (length-drop (range_of host (content_of flags 0) oid).start_byte r.source)
          (omega (arith, order, room, limit))) in
      ground
        (arith, sdf, same_size, ==_refl (content_of flags 0), whole, (serves (first_batch oid)).3)

  end_entry-done :
      (entry : OidWithBatch) (st : AgentState)
      → st.skip_oid ≡ none
      → end_entry flags host entry none st ≡ going (record st { pipes = remove entry st.pipes })
  unfolding end_entry plugin_error
  end_entry-done entry st fresh = ground (arith, sdf, fresh)

  -- The state behind a table that was read whole.
  unfoldable pub served : ℕ → List OidWithBatch → RestoreReader → AgentState → AgentState
  unfolding moved_to note_copy flush_writer whole_copy
  served oid later r st =
      record (flush_writer host (first_batch oid) (whole_copy oid r).bytes true
        (note_copy flags host (first_batch oid) (some (whole_copy oid r)) (moved_to oid r st))) {
          pipes = take flags.copy_queue later;
        }

  transfer_entry-served :
      (oid : ℕ) (later : List OidWithBatch) (st : AgentState) (r : RestoreReader)
      → st.readers (content_of flags 0) ≡ some r
      → IsAhead oid r (st.last_byte (content_of flags 0))
      → st.skip_oid ≡ none
      → st.pipes ≡ take (suc flags.copy_queue) (first_batch oid ∷ later)
      → transfer_entry flags host (first_batch oid) st ≡ going (served oid later r st)
  unfolding transfer_entry copy_and_end flush_writer served moved_to note_copy whole_copy copy_error
  transfer_entry-served oid later st r here ahead fresh h =
      let removed : remove (first_batch oid) (take (suc flags.copy_queue) (first_batch oid ∷ later))
          ≡ take flags.copy_queue later =
        ground (arith, ==_refl (first_batch oid)) in
      let ends =
        end_entry-done (first_batch oid)
          (flush_writer host (first_batch oid) (whole_copy oid r).bytes true
            (note_copy flags host (first_batch oid) (some (whole_copy oid r)) (moved_to oid r st)))
          fresh in
      rw
        (
          position_entry-moves oid st r here ahead,
          transfer_entry,
          copy_entry-whole oid st r (st.last_byte (content_of flags 0)) ahead,
          copy_and_end,
        )
        (ends
          ∙ ap
              (λ p.
                going
                  (record (flush_writer host (first_batch oid) (whole_copy oid r).bytes true (
                    note_copy flags host (first_batch oid) (some (whole_copy oid r))
                      (moved_to oid r st))) { pipes = p }))
              (ap (remove (first_batch oid)) h ∙ removed))

  pub restore_entry-served :
      (oid : ℕ) (later : List OidWithBatch) (st : AgentState) (r : RestoreReader)
      → IsDistinct (first_batch oid ∷ later)
      → st.readers (content_of flags 0) ≡ some r
      → IsAhead oid r (st.last_byte (content_of flags 0))
      → st.skip_oid ≡ none
      → st.pipes ≡ take flags.copy_queue (first_batch oid ∷ later)
      → restore_entry flags host (first_batch oid ∷ later) (first_batch oid) st
        ≡ going (served oid later r st)
  unfolding restore_entry feed_entry open_table_reader get_restore_pipe_writer Serves served
      moved_to note_copy flush_writer whole_copy
  restore_entry-served oid later st r d here ahead fresh h =
      let made = record st { pipes = take (suc flags.copy_queue) (first_batch oid ∷ later) } in
      let makes = create_next_pipe-take (first_batch oid ∷ later) st d fresh h in
      let connects : get_restore_pipe_writer flags host (first_batch oid) made ≡ opened =
        ground (arith, ==_refl (first_batch oid), (serves (first_batch oid)).2) in
      let kept : is_skipped oid made ≡ false = ground (arith, fresh) in
      let opens : open_table_reader flags host (first_batch oid) made ≡ value made =
        ground (arith, sdf) in
      let serves_it = transfer_entry-served oid later made r here ahead fresh refl in
      rw ((serves (first_batch oid)).0, makes, restore_entry, kept, opens, connects, feed_entry)
        serves_it

  pub served-last_byte :
      (oid : ℕ) (later : List OidWithBatch) (r : RestoreReader) (st : AgentState)
      → (served oid later r st).last_byte (content_of flags 0)
        ≡ (range_of host (content_of flags 0) oid).end_byte
  unfolding served note_copy flush_writer Serves whole_copy moved_to
  served-last_byte oid later r st = ground (arith, sdf, ==_refl (content_of flags 0))

  pub served-reader :
      (oid : ℕ) (later : List OidWithBatch) (r : RestoreReader) (st : AgentState)
      → (range_of host (content_of flags 0) oid).start_byte
        ≤ (range_of host (content_of flags 0) oid).end_byte
      → (range_of host (content_of flags 0) oid).end_byte ≤ length r.source
      → length r.source < i64_limit
      → (served oid later r st).readers (content_of flags 0)
        ≡ some (at_end host (content_of flags 0) oid r)
  unfolding served note_copy flush_writer Serves whole_copy moved_to at_start at_end
  served-reader oid later r st ordered room limit =
      let size =
        size_difference (range_of host (content_of flags 0) oid) (length r.source) ordered room
          limit in
      ground (arith, size, ordered, ==_refl (content_of flags 0))

  pub served-deliveries :
      (oid : ℕ) (later : List OidWithBatch) (r : RestoreReader) (st : AgentState)
      → (range_of host (content_of flags 0) oid).start_byte
        ≤ (range_of host (content_of flags 0) oid).end_byte
      → (range_of host (content_of flags 0) oid).end_byte ≤ length r.source
      → length r.source < i64_limit
      → (served oid later r st).deliveries
        ≡ st.deliveries ++ whole_delivery host (content_of flags 0) r.source oid ∷ []
  unfolding served note_copy flush_writer Serves whole_copy moved_to at_start whole_delivery
      table_bytes
  served-deliveries oid later r st ordered room limit =
      rw
        (
          (serves (first_batch oid)).4,
          size_difference (range_of host (content_of flags 0) oid) (length r.source) ordered room
              limit,
        )
        refl
