-- ===== src/Helper/Restore.antt =====
-- helper/restore_helper.go: doRestoreAgentInternal feeds the pipes of the tables, one after the
-- other, from the data files of the backup. The pipe `<pipe file>_<oid>_<batch>` is known by its
-- oid and batch, and content ids are natural numbers, as they are on every segment host. The
-- parameters of the host say what files, plugins and the server answer.
pub mod Agent
pub mod Loop
pub mod Standing
pub mod Transfers
pub mod Deliveries
pub mod Service
pub mod Completion
use gpbackup.Base.{
  take, ℕ, zero, suc, ◌+◌, ◌-◌, ◌*◌, ◌/◌, ◌%◌, ◌≤◌, ◌<◌, String, ◌<>◌, len, slice, ◌≡◌, refl, sym,
  ap, subst, ◌∙◌, ◌≢◌, ◌↔◌, ◌⊎◌, inl, inr, Bool, true, false, not, ◌&&◌, ◌||◌, Option, none, some,
  List, [], ◌∷◌, ◌++◌, map, arith, ltb, leb, nat_beq, if◌then◌else◌, nat_beq_iff, ltb→lt, lt→ltb,
  leb→le, Bool-cases, Option-cases, &&_left, &&_right, Comparable, ◌==◌, nat_comparable,
  string_comparable, ==_refl, ==_sound, ==_sym, length, is_empty, get_elem?, drop, filter, All,
  length-append, filter-append, All-append, All-map,
}
use gpbackup.Base.Maps.{GoMap, keys, lookup, put, delete, lookup-put, lookup-none}
use gpbackup.Base.Results.{Outcome, ok, fatal, ◌>>=◌, ◌>>◌, fatal_if, >>-eq-ok}
use gpbackup.Base.Counting.{contains, remove}
use gpbackup.Base.Words.{u64}
use gpbackup.Toc.{SegmentToc, SegmentDataEntry}
use gpbackup.Helper.{IoError, failed, Result, value, error}
use gpbackup.Helper.Reader.{
  ReaderType, seekable, nonseekable, subset, RestoreReader, Copied, position_reader, discard_data,
  copy_data, copy_all_data,
}

pub record OidWithBatch : Type 0 where
  pub oid : ℕ
  pub batch : ℕ

abbrev pub entry_beq : OidWithBatch → OidWithBatch → Bool
entry_beq e f = e.oid == f.oid && e.batch == f.batch

pub entry_beq_iff : (e f : OidWithBatch) → (entry_beq e f ≡ true) ↔ (e ≡ f)
entry_beq_iff e f = ground (arith, nat_beq_iff e.oid f.oid, nat_beq_iff e.batch f.batch)

instance abbrev pub entry_comparable : Comparable OidWithBatch
entry_comparable = record { beq = entry_beq; beq_iff = entry_beq_iff }

pub record RestoreFlags : Type 0 where
  pub content : ℕ
  pub orig_size : ℕ
  pub dest_size : ℕ
  pub copy_queue : ℕ
  pub single_data_file : Bool
  pub is_resize_restore : Bool
  pub on_error_continue : Bool

-- One try to open the pipe for writing: COPY has it open, or it does not yet, with or without a
-- skip file of the table, or the system refuses.
pub data Attempt : Type 0 where
  connected : Attempt
  no_reader : Bool → Attempt
  refused : IoError → Attempt

-- `segment_toc` is the table of contents of a content id, `sdf_reader` what getRestoreDataReader
-- gives for its data file and the oids of a batch, `table_reader` what it gives for the file of a
-- content id and an oid, `breaks` after how many bytes a copy notices that COPY no longer reads,
-- `flush_loses` how many of the bytes that are in the writer's buffer do not reach the pipe when the
-- flush fails, and `plugin_exit` how the plugin of an entry has ended.
pub record RestoreHost : Type 0 where
  pub is_terminated : OidWithBatch → Bool
  pub mkfifo_error : OidWithBatch → Option IoError
  pub attempts : OidWithBatch → List Attempt
  pub breaks : OidWithBatch → Option ℕ
  pub flush_loses : OidWithBatch → Option ℕ
  pub segment_toc : ℕ → SegmentToc
  pub sdf_reader : ℕ → List ℕ → Result RestoreReader
  pub table_reader : ℕ → ℕ → Result RestoreReader
  pub plugin_exit : OidWithBatch → Option IoError

-- The bytes that went into a pipe, and whether the copy and the flush ended without an error.
pub record Delivery : Type 0 where
  pub entry : OidWithBatch
  pub bytes : List ℕ
  pub is_complete : Bool

pub record AgentState : Type 0 where
  pub pipes : List OidWithBatch
  pub readers : ℕ → Option RestoreReader
  pub last_byte : ℕ → ℕ
  pub skip_oid : Option ℕ
  pub last_error : Option IoError
  pub deliveries : List Delivery

-- Where a round leaves the agent: it goes on, it returns an error, it still waits for the reader
-- of a pipe, or it panics.
pub data Progress : Type 0 where
  going : AgentState → Progress
  returned : IoError → AgentState → Progress
  waiting : AgentState → Progress
  panicked : String → Progress

-- `m[k] = v` on the maps that every content id has a value in.
abbrev pub assign {ℓ} : {V : Type ℓ} → ℕ → V → (ℕ → V) → ℕ → V
assign k v m j = if k == j then v else m j

unfoldable pub batches : RestoreFlags → ℕ
batches flags =
    if flags.is_resize_restore && ltb flags.dest_size flags.orig_size
    then (if flags.orig_size % flags.dest_size == 0
        then flags.orig_size / flags.dest_size
        else flags.orig_size / flags.dest_size + 1)
    else 1

abbrev pub content_of : RestoreFlags → ℕ → ℕ
content_of flags batch = flags.content + flags.dest_size * batch

-- A content id that the backup does not have: the entry is restored as empty.
abbrev pub is_beyond : RestoreFlags → ℕ → Bool
is_beyond flags c = flags.is_resize_restore && leb flags.orig_size c

-- `tocEntries[content][uint(tableOid)]`, which is zero for an oid that is not there.
unfoldable pub range_of : RestoreHost → ℕ → ℕ → SegmentDataEntry
range_of host c oid = elim (lookup oid (host.segment_toc c).data_entries) [
  | some range ↦ range
  | none ↦ record { start_byte = 0; end_byte = 0 }
]

-- `EndByte - StartByte` on uint64.
abbrev pub range_size : SegmentDataEntry → ℕ
range_size range = (range.end_byte + u64 - range.start_byte) % u64

-- The oids of a batch, in the order of the list.
unfoldable pub oids_of_batch : ℕ → List OidWithBatch → List ℕ
oids_of_batch batch [] = []
oids_of_batch batch (entry ∷ later) =
    let rest = oids_of_batch batch later in if entry.batch == batch then entry.oid ∷ rest else rest

-- The readers of the single data files, by content id; `left` batches are still to come.
unfoldable pub open_readers :
    RestoreFlags
    → RestoreHost
    → List OidWithBatch
    → (left batch : ℕ) → (ℕ → Option RestoreReader)
    → Result (ℕ → Option RestoreReader)
unfolding oids_of_batch
open_readers flags host entries zero batch readers = value readers
open_readers flags host entries (suc left) batch readers =
    if is_beyond flags (content_of flags batch)
    then value readers
    else elim (host.sdf_reader (content_of flags batch) (oids_of_batch batch entries)) [
      | error e ↦ error e
      | value r ↦
          open_readers flags host entries left (suc batch)
            (assign (content_of flags batch) (some r) readers)
    ]

abbrev pub is_skipped : ℕ → AgentState → Bool
is_skipped oid st = elim st.skip_oid [ none ↦ false | some skip ↦ skip == oid ]

abbrev pub error_step : Option IoError → AgentState → (AgentState → Progress) → Progress
error_step none st next = next st
error_step (some e) st next = returned e st
