-- ===== src/Backup/Metadata/RoundTrip.antt =====
-- backup/predata_acl.go and toc/toc.go: what is printed into the metadata file is read back from it.
use gpbackup.Base.{
  ℕ, ◌+◌, ◌-◌, ◌%◌, ◌<◌, String, ◌<>◌, len, ◌≡◌, refl, sym, ap, subst, ◌∙◌, Bool, true, List, [],
  ◌∷◌, ◌++◌, arith, nat_comparable, string_comparable,
}
use gpbackup.Base.Results.{ok}
use text.Mathlib.TextPositions.{len-append}
use text.Mathlib.TextLemmas.{append_assoc as str_append_assoc, append-nil as text-append-nil}
use mathlib.Core.List.{append_assoc, append-nil}
use gpbackup.Base.Words.{i64_limit, u64}
use gpbackup.Utils.Io.{FileWithByteCount, must_print}
use gpbackup.Toc.{
  MetadataEntry, StatementWithType, Section, Toc, section_entries, add_metadata_entry,
  section_entries-add,
}
use gpbackup.Toc.Filters.{FilterLists, should_include_statement-unfiltered}
use gpbackup.Toc.Statements.{
  read_entry, read_entries, read_at-middle, read_entries-append, get_sql_statement_for_object_types,
}
use gpbackup.Backup.Metadata.{mark_postdata, frame, print_statements}

-- The writer's count is right as long as it fits an int64.
abbrev pub IsCounted : FileWithByteCount → Type 0
IsCounted file = file.byte_count ≡ len file.written

abbrev pub texts : List StatementWithType → List String
texts [] = []
texts (s ∷ ss) = s.statement ∷ texts ss

abbrev pub frames : List String → List String
frames [] = []
frames (s ∷ ss) = frame s ∷ frames ss

abbrev pub concat : List String → String
concat [] = ""
concat (s ∷ ss) = s <> concat ss

texts-append : (xs ys : List StatementWithType) → texts (xs ++ ys) ≡ texts xs ++ texts ys
texts-append [] ys = refl
texts-append (x ∷ xs) ys = rw (texts-append xs ys)

-- The table of contents after one statement.
abbrev add_one : FileWithByteCount → Toc → Section × MetadataEntry → String → List ℕ → Toc
add_one file toc obj s tier =
    add_metadata_entry toc obj.0 (mark_postdata obj.0 obj.1) file.byte_count
      (must_print file (frame s)).byte_count tier

-- Printing appends the framed statements to the file.
written-print_statements :
    (file : FileWithByteCount) (toc : Toc) (obj : Section × MetadataEntry)
    (statements : List String) (tier : List ℕ)
    → (print_statements file toc obj statements tier).0.written
      ≡ file.written <> concat (frames statements)
unfolding print_statements must_print
written-print_statements file toc obj [] tier = sym (text-append-nil file.written)
written-print_statements file toc obj (s ∷ ss) tier =
    written-print_statements (must_print file (frame s)) (add_one file toc obj s tier) obj ss tier
    ∙ str_append_assoc file.written (frame s) _

-- The statement that stands at the end of the written text is read back from any longer file.
read_entry-printed :
    (w s more : String) (entry : MetadataEntry) (tier : List ℕ)
    → len (w <> (s <> more)) < i64_limit
    → (st : StatementWithType) × (read_entry
          (w <> (s <> more))
          (record entry { start_byte = len w; end_byte = len w + len s; tier = tier })
        ≡ ok st)
      × (st.statement ≡ s)
unfolding read_entry
read_entry-printed w s more entry tier h = (
  record {
    schema = entry.schema;
    name = entry.name;
    object_type = entry.object_type;
    reference_object = entry.reference_object;
    statement = s;
    tier = tier;
  },
  rw (size, read_at-middle w s more (omega (arith, len-append w (s <> more)))) refl,
  refl,
)
  where
    size : (len w + len s + u64 - len w) % u64 ≡ len s
    size = omega (arith, len-append w (s <> more), len-append s more)

must_print-IsCounted :
    (file : FileWithByteCount) (s : String)
    → IsCounted file
    → len file.written + len s < i64_limit
    → IsCounted (must_print file s)
unfolding must_print
must_print-IsCounted file s c h = omega (arith, len-append file.written s)

byte_count-must_print :
    (file : FileWithByteCount) (s : String)
    → IsCounted file
    → len file.written + len s < i64_limit
    → (must_print file s).byte_count ≡ len file.written + len s
unfolding must_print
byte_count-must_print file s c h = omega (arith, len-append file.written s)

module _ (include : MetadataEntry → Bool) (all : (e : MetadataEntry) → include e ≡ true)
    (obj : Section × MetadataEntry) (tier : List ℕ) where
  abbrev Reads : String → Toc → List StatementWithType → Type 0
  Reads w toc ss = read_entries w include (section_entries obj.0 toc) ≡ ok ss

  read_one :
      (entry : MetadataEntry) (w0 s more w : String) (b0 b1 : ℕ)
      → w ≡ w0 <> (s <> more)
      → b0 ≡ len w0
      → b1 ≡ len w0 + len s
      → len w < i64_limit
      → (st : StatementWithType) × (read_entries w include
            (record entry { start_byte = b0; end_byte = b1; tier = tier } ∷ [])
          ≡ ok (st ∷ []))
        × (st.statement ≡ s)
  unfolding read_entries
  read_one entry w0 s more w b0 b1 e p q h =
      let (st, read, text) =
        read_entry-printed w0 s more entry tier (subst (λ v. len v < i64_limit) e h) in
      (st, rw (e, p, q) (rw (all _) (rw read)), text)

  add_one-Reads :
      (file : FileWithByteCount) (toc : Toc) (s more w : String) (prior : List StatementWithType)
      → w ≡ file.written <> (frame s <> more)
      → IsCounted file
      → len w < i64_limit
      → Reads w toc prior
      → (st : StatementWithType) × Reads w (add_one file toc obj s tier) (prior ++ st ∷ [])
        × (st.statement ≡ frame s)
  add_one-Reads file toc s more w prior e c h r =
      let size : len file.written + len (frame s) < i64_limit = fits in
      let (st, read, text) =
        read_one (mark_postdata obj.0 obj.1) file.written (frame s) more w file.byte_count
          (must_print file (frame s)).byte_count e c (byte_count-must_print file (frame s) c size)
          h in
      (
        st,
        rw
            (section_entries-add toc obj.0 obj.0 (mark_postdata obj.0 obj.1) file.byte_count
              (must_print file (frame s)).byte_count tier).0
            (read_entries-append w include (section_entries obj.0 toc) _ prior (st ∷ []) r read),
        text,
      )
    where
      fits : len file.written + len (frame s) < i64_limit
      fits =
          omega
            (arith, ap len e, len-append file.written (frame s <> more), len-append (frame s) more)

  print_statements-reads :
      (file : FileWithByteCount) (toc : Toc) (statements : List String) (more w : String)
      (prior : List StatementWithType)
      → w ≡ file.written <> (concat (frames statements) <> more)
      → IsCounted file
      → len w < i64_limit
      → Reads w toc prior
      → (ss : List StatementWithType) × Reads w
          (print_statements file toc obj statements tier).1
          (prior ++ ss)
        × (texts ss ≡ frames statements)
  unfolding print_statements
  print_statements-reads file toc [] more w prior e c h r = ([], rw append-nil r, refl)
  print_statements-reads file toc (s ∷ statements) more w prior e c h r =
      let after = must_print file (frame s) in
      let rest = concat (frames statements) in
      let e' : w ≡ file.written <> (frame s <> (rest <> more)) =
        e ∙ ap (λ z. file.written <> z) (str_append_assoc (frame s) rest more) in
      let (st, reads, text) = add_one-Reads file toc s (rest <> more) w prior e' c h r in
      let (ss, all_read, all_text) =
        print_statements-reads (must_print file (frame s)) (add_one file toc obj s tier) statements
          more w (prior ++ st ∷ []) (e' ∙ sym (str_append_assoc file.written (frame s) _))
          (must_print-IsCounted file (frame s) c (fits e')) h reads in
      (st ∷ ss, rw append_assoc at all_read, cc)
    where
      fits :
          w ≡ file.written <> (frame s <> (concat (frames statements) <> more))
          → len file.written + len (frame s) < i64_limit
      fits e' = omega (
        arith,
        ap len e',
        len-append file.written (frame s <> (concat (frames statements) <> more)),
        len-append (frame s) (concat (frames statements) <> more),
      )

abbrev pub no_filters : FilterLists
no_filters = record {
  include_object_types = [];
  exclude_object_types = [];
  include_schemas = [];
  exclude_schemas = [];
  include_relations = [];
  exclude_relations = [];
}

-- After statements are printed for an object, reading the object's section without filters gives
-- what it gave before, and then the statements, each in the frame that it was printed in; also
-- when the file has grown since. The count of the file's bytes must have been right, and the file
-- be shorter than 2^63 bytes.
pub print_statements-get_sql :
    (file : FileWithByteCount) (toc : Toc) (obj : Section × MetadataEntry)
    (statements : List String) (tier : List ℕ) (more : String) (prior : List StatementWithType)
    → IsCounted file
    → let (file', toc') = print_statements file toc obj statements tier in
      len (file'.written <> more) < i64_limit
      → get_sql_statement_for_object_types toc obj.0 (file'.written <> more) no_filters ≡ ok prior
      → (ss : List StatementWithType) × (get_sql_statement_for_object_types toc' obj.0
            (file'.written <> more)
            no_filters
          ≡ ok (prior ++ ss))
        × (texts ss ≡ frames statements)
unfolding get_sql_statement_for_object_types
print_statements-get_sql file toc obj statements tier more prior c h r =
    print_statements-reads _ should_include_statement-unfiltered obj tier file toc statements more _
      prior
      (ap (λ z. z <> more) (written-print_statements file toc obj statements tier)
        ∙ str_append_assoc file.written (concat (frames statements)) more)
      c h r
