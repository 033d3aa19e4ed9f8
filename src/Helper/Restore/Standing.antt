-- ===== src/Helper/Restore/Standing.antt =====
-- helper/restore_helper.go: where the readers of single data files stand between two entries, and
-- what a copy notes.
use gpbackup.Base.{
  take, ℕ, ◌+◌, ◌-◌, ◌%◌, ◌≤◌, ◌<◌, ◌≡◌, refl, subst, ◌≢◌, inl, inr, true, false, Option, some,
  List, [], arith, if◌then◌else◌, Bool-cases, Bool, Option-cases, ◌==◌, nat_comparable,
  string_comparable, ==_sound, length, drop, All, All-append,
}
use gpbackup.Base.Words.{i64_limit, u64}
use gpbackup.Helper.Reader.{subset, RestoreReader, Copied, copy_n}
use gpbackup.Helper.Reader.Copies.{Moves, copy_n-Moves, length-drop}
use gpbackup.Helper.Restore.{
  OidWithBatch, RestoreFlags, RestoreHost, Delivery, AgentState, assign, content_of, is_beyond,
  range_of, range_size,
}
use gpbackup.Helper.Restore.Agent.{note_copy, flush_writer, is_done}

-- The ranges of the tables of contents lie in the data files, whose sizes are int64 numbers.
unfoldable pub RangesFit : RestoreHost → (ℕ → List ℕ) → Type 0
RangesFit host files =
    (c oid : ℕ)
    → ((range_of host c oid).start_byte ≤ (range_of host c oid).end_byte)
      × ((range_of host c oid).end_byte ≤ length (files c))
      × (length (files c) < i64_limit)

-- The part of the data file that belongs to an entry; nothing, for a content id that the backup
-- does not have.
unfoldable pub stored_bytes : RestoreFlags → RestoreHost → (ℕ → List ℕ) → OidWithBatch → List ℕ
unfolding range_of
stored_bytes flags host files entry =
    let c = content_of flags entry.batch in
    let range = range_of host c entry.oid in
    if is_beyond flags c
    then []
    else take (range.end_byte - range.start_byte) (drop range.start_byte (files c))

unfoldable pub IsExact : RestoreFlags → RestoreHost → (ℕ → List ℕ) → Delivery → Type 0
IsExact flags host files d = d.is_complete ≡ true → d.bytes ≡ stored_bytes flags host files d.entry

unfoldable pub IsAt : (ℕ → List ℕ) → ℕ → ℕ → RestoreReader → Type 0
IsAt files c pos r =
    (r.source ≡ files c) × (r.position ≡ pos) × (r.reader_type ≢ subset) × (pos < i64_limit)

-- Each reader reads the file of its content id and stands at an offset given for it.
unfoldable pub Stand : RestoreFlags → (ℕ → List ℕ) → (ℕ → Option RestoreReader) → (ℕ → ℕ) → Type 0
unfolding IsAt
Stand flags files readers offsets =
    (c : ℕ) (r : RestoreReader)
    → readers c ≡ some r
    → (is_beyond flags c ≡ false) × IsAt files c (offsets c) r

-- The readers stand where `lastByte` says, and what has been delivered is exact.
unfoldable pub IsSound : RestoreFlags → RestoreHost → (ℕ → List ℕ) → AgentState → Type 0
unfolding Stand
IsSound flags host files st =
    Stand flags files st.readers st.last_byte × All (IsExact flags host files) st.deliveries

pub Stand-assign :
    (flags : RestoreFlags) (files : ℕ → List ℕ) (readers : ℕ → Option RestoreReader)
    (offsets : ℕ → ℕ) (c pos : ℕ) (r : RestoreReader)
    → Stand flags files readers offsets
    → is_beyond flags c ≡ false
    → IsAt files c pos r
    → Stand flags files (assign c (some r) readers) (assign c pos offsets)
unfolding Stand
Stand-assign flags files readers offsets c pos r stand within at d s h =
    elim (Bool-cases (c == d)) [
      | inl same ↦
          let found : some r ≡ some s = ground (arith, same, h) in
          let offset : assign c pos offsets d ≡ pos = ground (arith, same) in
          subst (λ e. (is_beyond flags e ≡ false) × IsAt files e (assign c pos offsets d) s)
            (==_sound c d same) (within, (ground arith))
      | inr other ↦ ground (arith, stand d s)
    ]

Stand-assign_again :
    (flags : RestoreFlags) (files : ℕ → List ℕ) (readers : ℕ → Option RestoreReader)
    (offsets : ℕ → ℕ) (c pos : ℕ) (moved r : RestoreReader)
    → Stand flags files readers offsets
    → is_beyond flags c ≡ false
    → IsAt files c pos r
    → Stand flags files (assign c (some r) (assign c (some moved) readers)) (assign c pos offsets)
unfolding Stand
Stand-assign_again flags files readers offsets c pos moved r stand within at d s h =
    Stand-assign flags files readers offsets c pos r stand within at d s (ground arith)

-- A part of the data file, by its range.
pub copied_range :
    (host : RestoreHost) (files : ℕ → List ℕ) (c oid : ℕ) (breaks : Option ℕ) (r : RestoreReader)
    → RangesFit host files
    → IsAt files c (range_of host c oid).start_byte r
    → Moves
        (range_size (range_of host c oid))
        r
        (copy_n breaks (range_size (range_of host c oid)) r)
unfolding RangesFit IsAt
copied_range host files c oid breaks r fit (source, position, other, low) =
    let (order, room, limit) = fit c oid in
    copy_n-Moves breaks (range_size (range_of host c oid)) r (ground (arith, order, room, limit))
      (rw (length-drop r.position r.source, position, source) (omega (arith, order, room, limit)))

-- Where `lastByte` says that a copy has left its reader, and where it is.
copy-IsAt :
    (host : RestoreHost) (files : ℕ → List ℕ) (c oid : ℕ) (moved : RestoreReader) (copied : Copied)
    → RangesFit host files
    → IsAt files c (range_of host c oid).start_byte moved
    → Moves (range_size (range_of host c oid)) moved copied
    → IsAt files c
        (if is_done copied
          then (range_of host c oid).end_byte
          else ((range_of host c oid).start_byte + copied.bytes_read) % u64)
        copied.reader
unfolding RangesFit IsAt Moves
copy-IsAt host files c oid moved copied fit (source, position, other, low) (reader, most, all) =
    let (order, room, limit) = fit c oid in
    rw reader (
      source,
      ground (arith, position, order, room, limit, most, all),
      other,
      ground (arith, order, room, limit, most, all),
    )

copy-IsExact :
    (flags : RestoreFlags) (host : RestoreHost) (files : ℕ → List ℕ) (entry : OidWithBatch)
    (moved : RestoreReader) (copied : Copied)
    → RangesFit host files
    → is_beyond flags (content_of flags entry.batch) ≡ false
    → IsAt files
        (content_of flags entry.batch)
        (range_of host (content_of flags entry.batch) entry.oid).start_byte
        moved
    → Moves (range_size (range_of host (content_of flags entry.batch) entry.oid)) moved copied
    → is_done copied ≡ true
    → copied.bytes ≡ stored_bytes flags host files entry
unfolding stored_bytes Moves IsAt RangesFit
copy-IsExact flags host files entry moved copied fit within at moves done =
    let c = content_of flags entry.batch in
    let (order, room, limit) = fit c entry.oid in
    let (all, count) = moves.2 (ground (arith, done)) in
    let size : range_size (range_of host c entry.oid)
        ≡ (range_of host c entry.oid).end_byte - (range_of host c entry.oid).start_byte =
      omega (arith, order, room, limit) in
    rw (within, all, at.0, at.1, size) refl

-- A flush leaves exact what was so before.
pub flushed-IsExact :
    (flags : RestoreFlags) (host : RestoreHost) (files : ℕ → List ℕ) (entry : OidWithBatch)
    (written : List ℕ) (is_complete : Bool) (st : AgentState)
    → All (IsExact flags host files) st.deliveries
    → (is_complete ≡ true → written ≡ stored_bytes flags host files entry)
    → All (IsExact flags host files) (flush_writer host entry written is_complete st).deliveries
unfolding flush_writer IsExact
flushed-IsExact flags host files entry written is_complete st exact same =
    elim (Option-cases (host.flush_loses entry)) [
      | inl flushed ↦
          rw (flushed, flush_writer)
            (All-append (IsExact flags host files) st.deliveries _ exact (same, tt))
      | inr (lost, fails) ↦
          rw (fails, flush_writer)
            (All-append (IsExact flags host files) st.deliveries _ exact (λ done. ground arith, tt))
    ]

-- What a copy notes is sound.
pub note_copy-IsSound :
    (flags : RestoreFlags) (host : RestoreHost) (files : ℕ → List ℕ) (entry : OidWithBatch)
    (st : AgentState) (moved : RestoreReader) (copied : Copied)
    → flags.single_data_file ≡ true
    → RangesFit host files
    → IsSound flags host files st
    → is_beyond flags (content_of flags entry.batch) ≡ false
    → IsAt files
        (content_of flags entry.batch)
        (range_of host (content_of flags entry.batch) entry.oid).start_byte
        moved
    → Moves (range_size (range_of host (content_of flags entry.batch) entry.oid)) moved copied
    → IsSound flags host files (
        flush_writer host entry copied.bytes (is_done copied) (
          note_copy flags host entry (some copied) (record st {
            readers = assign (content_of flags entry.batch) (some moved) st.readers;
          })))
unfolding IsSound note_copy flush_writer
note_copy-IsSound flags host files entry st moved copied sdf fit (stand, exact) within at moves = (
  rw sdf (
      Stand-assign_again flags files st.readers st.last_byte (content_of flags entry.batch) _ moved
        copied.reader stand within
        (copy-IsAt host files (content_of flags entry.batch) entry.oid moved copied fit at moves)),
  flushed-IsExact flags host files entry copied.bytes (is_done copied) st exact
      (copy-IsExact flags host files entry moved copied fit within at moves),
)
