-- ===== src/Helper/Reader.antt =====
-- helper/restore_helper.go: RestoreReader, what the agent reads the tables' bytes from. `source`
-- is the whole of what the file, the decompressor or the plugin delivers, `position` how much of
-- it has been read or passed over.
pub mod Copies
use gpbackup.Base.{
  take, ℕ, zero, suc, ◌+◌, ◌-◌, ◌*◌, ◌/◌, ◌%◌, ◌≤◌, ◌<◌, String, ◌<>◌, len, slice, ◌≡◌, refl, sym,
  ap, subst, ◌∙◌, ◌≢◌, ◌↔◌, ◌⊎◌, inl, inr, Bool, true, false, not, ◌&&◌, ◌||◌, Option, none, some,
  List, [], ◌∷◌, ◌++◌, map, arith, ltb, leb, nat_beq, if◌then◌else◌, nat_beq_iff, ltb→lt, lt→ltb,
  leb→le, Bool-cases, Option-cases, &&_left, &&_right, Comparable, ◌==◌, nat_comparable,
  string_comparable, ==_refl, ==_sound, ==_sym, length, is_empty, get_elem?, drop, filter, All,
  length-append, filter-append, All-append, All-map,
}
use gpbackup.Base.Results.{Outcome, ok, fatal, ◌>>=◌, ◌>>◌, fatal_if, >>-eq-ok}
use gpbackup.Base.Words.{i64_limit, u64}
use gpbackup.Helper.{IoError, eof, failed, Result, value, error}

pub data ReaderType : Type 0 where
  seekable nonseekable subset : ReaderType

pub record RestoreReader : Type 0 where
  pub reader_type : ReaderType
  pub source : List ℕ
  pub position : ℕ
  pub discard_err : Bool

-- What a copy into the pipe did: the count that the source calls bytesRead, the bytes that went
-- into the writer, the error, and the reader behind it.
pub record Copied : Type 0 where
  pub bytes_read : ℕ
  pub bytes : List ℕ
  pub err : Option IoError
  pub reader : RestoreReader

abbrev pub unread : RestoreReader → List ℕ
unread r = drop r.position r.source

abbrev pub advance : ℕ → RestoreReader → RestoreReader
advance n r = record r { position = r.position + n }

abbrev pub failing : RestoreReader → RestoreReader
failing r = record r { discard_err = true }

-- `int64(x)` is negative from 2^63 on.
abbrev pub is_negative : ℕ → Bool
is_negative x = leb i64_limit x

-- `Seek(int64(pos), io.SeekCurrent)`: an offset before the start is refused.
unfoldable pub seek : ℕ → RestoreReader → Result RestoreReader
seek pos r =
    if is_negative pos
    then (let back = u64 - pos in
        if ltb r.position back
        then error (failed "negative position")
        else value (record r { position = r.position - back }))
    else if leb i64_limit (r.position + pos)
    then error (failed "position overflows")
    else value (advance pos r)

-- `bufReader.Discard(int(pos))`: a negative count and a short source are refused.
unfoldable pub discard : ℕ → RestoreReader → Result RestoreReader
discard pos r =
    if is_negative pos
    then error (failed "negative count")
    else if ltb (length (unread r)) pos
    then error eof
    else value (advance pos r)

unfoldable pub position_reader : ℕ → RestoreReader → Result RestoreReader
unfolding seek discard
position_reader pos r = elim r.reader_type [
  | seekable ↦ seek pos r
  | nonseekable ↦ discard pos r
  | subset ↦ value r
]

-- `io.Copy` and `io.CopyN` into the buffered writer of the pipe. `breaks` is the number of bytes
-- after which the copy gets the error of a broken pipe, where it does: the writer gives it when it
-- next empties its buffer, and what has been taken by then need not have reached the pipe.
copy_bytes : Option ℕ → List ℕ → Option IoError → RestoreReader → Copied
copy_bytes none taken short r = record {
  bytes_read = length taken;
  bytes = taken;
  err = short;
  reader = advance (length taken) r;
}
copy_bytes (some k) taken short r =
    if ltb k (length taken)
    then record {
      bytes_read = k;
      bytes = take k taken;
      err = some (failed "broken pipe");
      reader = advance k r;
    }
    else record {
      bytes_read = length taken;
      bytes = taken;
      err = short;
      reader = advance (length taken) r;
    }

-- `io.CopyN(writer, reader, num)`: a count that is negative as an int64 copies nothing, and a
-- source that ends early is the error EOF.
unfoldable pub copy_n : Option ℕ → ℕ → RestoreReader → Copied
unfolding copy_bytes
copy_n breaks num r =
    if is_negative num
    then record { bytes_read = 0; bytes = []; err = none; reader = r }
    else copy_bytes breaks (take num (unread r))
        (if ltb (length (unread r)) num then some eof else none) r

-- The panic of a reader of another type is the outcome `fatal`.
unfoldable pub discard_data : ℕ → RestoreReader → Outcome Copied
unfolding copy_n
discard_data num r = elim r.reader_type [
  | subset ↦ ok (
      if r.discard_err
      then record {
        bytes_read = 0;
        bytes = [];
        err = some (failed "discard error has already occurred");
        reader = r;
      }
      else (let c = copy_n none num r in
          elim c.err [
            | none ↦ c
            | some e ↦ record c {
              err = some (failed "discarded too few bytes");
              reader = failing c.reader;
            }
          ]))
  | _ ↦ fatal "discardData should be called for readerType == SUBSET only"
]

-- The rest of a table that broke in the middle is discarded, so that the next one is found.
discard_rest : ℕ → Copied → Outcome Copied
unfolding discard_data
discard_rest num c = discard_data (num - c.bytes_read) c.reader >>= λ d. ok (record c {
  bytes_read = c.bytes_read + d.bytes_read;
  err = elim d.err [ none ↦ c.err | some _ ↦ some (failed "discard error in copyData") ];
  reader = d.reader;
})

copy_subset : Bool → Option ℕ → ℕ → RestoreReader → Outcome Copied
unfolding copy_n discard_rest
copy_subset on_error_continue breaks num r =
    if r.discard_err
    then ok (record {
      bytes_read = 0;
      bytes = [];
      err = some (failed "discard error has already occurred");
      reader = r;
    })
    else (let c = copy_n breaks num r in
        elim c.err [
          | none ↦ ok c
          | some eof ↦ ok c
          | some (failed e) ↦ if on_error_continue then discard_rest num c else ok c
        ])

unfoldable pub copy_data : Bool → Option ℕ → ℕ → RestoreReader → Outcome Copied
unfolding copy_n copy_subset
copy_data on_error_continue breaks num r = elim r.reader_type [
  | subset ↦ copy_subset on_error_continue breaks num r
  | _ ↦ ok (copy_n breaks num r)
]

unfoldable pub copy_all_data : Option ℕ → RestoreReader → Copied
unfolding copy_bytes
copy_all_data breaks r = copy_bytes breaks (unread r) none r
