-- ===== src/Helper/Restore/Transfers.antt =====
-- helper/restore_helper.go: one entry's transfer from a single data file into its pipe.
use gpbackup.Base.{
  ℕ, ◌+◌, ◌-◌, ◌%◌, ◌≡◌, refl, sym, subst, ◌≢◌, inl, inr, Bool, true, false, Option, none, some,
  List, [], arith, if◌then◌else◌, Bool-cases, Option-cases, ◌==◌, nat_comparable, string_comparable,
  ==_refl, ==_sound,
}
use gpbackup.Base.Results.{ok}
use gpbackup.Base.Counting.{remove}
use gpbackup.Base.Words.{u64}
use gpbackup.Helper.{IoError, value, Result-cases}
use gpbackup.Helper.Reader.{subset, RestoreReader, position_reader, copy_n, copy_data}
use gpbackup.Helper.Reader.Copies.{position_reader-lands}
use gpbackup.Helper.Restore.{
  OidWithBatch, entry_comparable, RestoreFlags, RestoreHost, AgentState, Progress, going, returned,
  waiting, panicked, assign, content_of, is_beyond, range_of, range_size, is_skipped,
}
use gpbackup.Helper.Restore.Agent.{
  plugin_error, end_entry, position_entry, copy_entry, note_copy, copy_error, flush_writer,
}
use gpbackup.Helper.Restore.Loop.{and_then, copy_and_end, transfer_entry}
use gpbackup.Helper.Restore.Standing.{
  RangesFit, stored_bytes, IsAt, Stand, IsSound, copied_range, flushed-IsExact, note_copy-IsSound,
}

-- A predicate on the state in which a step leaves the agent, however it ends. A panic leaves none.
abbrev pub Leaves {κ} : (AgentState → Type κ) → Progress → Type κ
Leaves P (going st) = P st
Leaves P (returned e st) = P st
Leaves P (waiting st) = P st
Leaves P (panicked e) = Unit

pub Leaves-map {κ} :
    (P Q : AgentState → Type κ) (step : Progress)
    → Leaves P step
    → ((st : AgentState) → P st → Q st)
    → Leaves Q step
Leaves-map P Q (going st) p weaken = weaken st p
Leaves-map P Q (returned e st) p weaken = weaken st p
Leaves-map P Q (waiting st) p weaken = weaken st p
Leaves-map P Q (panicked e) p weaken = tt

pub Leaves-and_then {κ} :
    (P Q : AgentState → Type κ) (step : Progress) (next : AgentState → Progress)
    → Leaves P step
    → ((st : AgentState) → P st → Q st)
    → ((st : AgentState) → P st → Leaves Q (next st))
    → Leaves Q (and_then step next)
Leaves-and_then P Q (going st) next p weaken k = k st p
Leaves-and_then P Q (returned e st) next p weaken k = weaken st p
Leaves-and_then P Q (waiting st) next p weaken k = weaken st p
Leaves-and_then P Q (panicked e) next p weaken k = tt

module _ (flags : RestoreFlags) (host : RestoreHost) (files : ℕ → List ℕ) where
  end-Leaves :
      (on_error : Bool) (err : Option IoError) (st : AgentState)
      → IsSound flags host files st
      → Leaves (IsSound flags host files) (elim err [
        | none ↦ going st
        | some e ↦ if on_error then going (record st { last_error = some e }) else returned e st
      ])
  unfolding IsSound
  end-Leaves on_error none st sound = sound
  end-Leaves true (some e) st sound = sound
  end-Leaves false (some e) st sound = sound

  closed-IsSound :
      (b : Bool) (pipes : List OidWithBatch) (st : AgentState)
      → IsSound flags host files st
      → IsSound flags host files (if b then st else record st { pipes = pipes })
  unfolding IsSound
  closed-IsSound true pipes st sound = sound
  closed-IsSound false pipes st sound = sound

  pub end_entry-Leaves :
      (entry : OidWithBatch) (err : Option IoError) (st : AgentState)
      → IsSound flags host files st
      → Leaves (IsSound flags host files) (end_entry flags host entry err st)
  unfolding end_entry
  end_entry-Leaves entry err st sound =
      end-Leaves flags.on_error_continue (plugin_error flags host entry err st)
        (if is_skipped entry.oid st then st else record st { pipes = remove entry st.pipes })
        (closed-IsSound (is_skipped entry.oid st) (remove entry st.pipes) st sound)

  note_nothing-IsSound :
      (entry : OidWithBatch) (st : AgentState)
      → flags.single_data_file ≡ true
      → is_beyond flags (content_of flags entry.batch) ≡ true
      → IsSound flags host files st
      → IsSound flags host files
          (flush_writer host entry [] true (note_copy flags host entry none st))
  unfolding IsSound note_copy flush_writer Stand stored_bytes
  note_nothing-IsSound entry st sdf beyond (stand, exact) = (
    λ c r h. elim (Bool-cases (content_of flags entry.batch == c)) [
      | inl same ↦
          absurd
            (ground (arith, stand c r h, beyond, ==_sound (content_of flags entry.batch) c same))
      | inr other ↦ ground (arith, sdf, other, stand c r h)
    ],
    flushed-IsExact flags host files entry [] true st exact (λ done. rw beyond refl),
  )

  module _ (sdf : flags.single_data_file ≡ true) (fit : RangesFit host files) where
    copy_entry-copy_n :
        (entry : OidWithBatch) (st : AgentState) (moved : RestoreReader)
        → is_beyond flags (content_of flags entry.batch) ≡ false
        → moved.reader_type ≢ subset
        → copy_entry flags host entry
            (record st { readers = assign (content_of flags entry.batch) (some moved) st.readers })
          ≡ ok (
              some (
                copy_n
                  (host.breaks entry)
                  (range_size (range_of host (content_of flags entry.batch) entry.oid))
                  moved))
    unfolding copy_entry copy_data
    copy_entry-copy_n entry st moved within other =
        ground (arith, sdf, ==_refl (content_of flags entry.batch))

    -- A copy of a table that the backup has, from a reader that stands at its first byte.
    copied-Leaves :
        (entry : OidWithBatch) (st : AgentState) (moved : RestoreReader)
        → IsSound flags host files st
        → is_beyond flags (content_of flags entry.batch) ≡ false
        → IsAt files
            (content_of flags entry.batch)
            (range_of host (content_of flags entry.batch) entry.oid).start_byte
            moved
        → Leaves (IsSound flags host files) (
            copy_and_end flags host entry (record st {
              readers = assign (content_of flags entry.batch) (some moved) st.readers;
            }))
    unfolding copy_and_end copy_error IsAt
    copied-Leaves entry st moved sound within at =
        let copied =
          copy_n (host.breaks entry)
            (range_size (range_of host (content_of flags entry.batch) entry.oid)) moved in
        rw (copy_entry-copy_n entry st moved within at.2, copy_and_end)
          (end_entry-Leaves entry copied.err _ (
            note_copy-IsSound flags host files entry st moved copied sdf fit sound within at (
              copied_range host files (content_of flags entry.batch) entry.oid (host.breaks entry)
                moved fit at)))

    nothing-Leaves :
        (entry : OidWithBatch) (st : AgentState)
        → IsSound flags host files st
        → is_beyond flags (content_of flags entry.batch) ≡ true
        → Leaves (IsSound flags host files) (copy_and_end flags host entry st)
    unfolding copy_and_end copy_error
    nothing-Leaves entry st sound beyond =
        let copies : copy_entry flags host entry st ≡ ok none =
          ground (arith, beyond, copy_entry) in
        rw (copies, copy_and_end)
          (end_entry-Leaves entry none
            (flush_writer host entry [] true (note_copy flags host entry none st))
            (note_nothing-IsSound entry st sdf beyond sound))

    -- A reader of the backup's data file lands at the first byte of the table.
    lands :
        (entry : OidWithBatch) (st : AgentState) (r moved : RestoreReader)
        → IsSound flags host files st
        → st.readers (content_of flags entry.batch) ≡ some r
        → position_reader
            (((range_of host (content_of flags entry.batch) entry.oid).start_byte
                + u64
                - st.last_byte (content_of flags entry.batch))
              % u64)
            r
          ≡ value moved
        → IsAt files
            (content_of flags entry.batch)
            (range_of host (content_of flags entry.batch) entry.oid).start_byte
            moved
    unfolding IsSound Stand IsAt RangesFit
    lands entry st r moved (stand, exact) here moves =
        let (source, position, other, low) = (stand (content_of flags entry.batch) r here).1 in
        let (order, room, limit) = fit (content_of flags entry.batch) entry.oid in
        let landed =
          position_reader-lands (range_of host (content_of flags entry.batch) entry.oid).start_byte
            r moved other (omega (arith, order, room, limit)) (omega (arith, position, low))
            (subst
              (λ p.
                position_reader
                  (((range_of host (content_of flags entry.batch) entry.oid).start_byte + u64 - p)
                    % u64)
                  r
                ≡ value moved)
              (sym position) moves) in
        rw landed (source, refl, other, omega (arith, order, room, limit))

    pub transfer_entry-Leaves :
        (entry : OidWithBatch) (st : AgentState)
        → IsSound flags host files st
        → Leaves (IsSound flags host files) (transfer_entry flags host entry st)
    unfolding transfer_entry position_entry
    transfer_entry-Leaves entry st sound =
        elim (Bool-cases (is_beyond flags (content_of flags entry.batch))) [
          | inl beyond ↦
              let stays : position_entry flags host entry st ≡ going st = ground (arith, beyond) in
              rw (stays, transfer_entry) (nothing-Leaves entry st sound beyond)
          | inr within ↦ elim (Option-cases (st.readers (content_of flags entry.batch))) [
            | inl closed ↦
                let panics : position_entry flags host entry st ≡ panicked "nil reader" =
                  ground (arith, within, sdf, closed) in
                rw (panics, transfer_entry) tt
            | inr (r, here) ↦
                elim (Result-cases (
                  position_reader
                    (((range_of host (content_of flags entry.batch) entry.oid).start_byte
                        + u64
                        - st.last_byte (content_of flags entry.batch))
                      % u64)
                    r)) [
                      | inr (e, fails) ↦
                          let ends : position_entry flags host entry st ≡ returned e st =
                            ground (arith, within, sdf, here, fails) in
                          rw (ends, transfer_entry) sound
                      | inl (moved, moves) ↦
                          let goes : position_entry flags host entry st
                              ≡ going (record st {
                                readers =
                                    assign (content_of flags entry.batch) (some moved) st.readers;
                              }) =
                            ground (arith, within, sdf, here, moves) in
                          rw (goes, transfer_entry)
                            (copied-Leaves entry st moved sound within
                              (lands entry st r moved sound here moves))
                    ]
          ]
        ]
