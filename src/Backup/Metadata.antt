-- ===== src/Backup/Metadata.antt =====
-- backup/predata_acl.go: statements are appended to the metadata file, each with its entry.
pub mod RoundTrip
use gpbackup.Base.{
  ℕ, zero, suc, ◌+◌, ◌-◌, ◌*◌, ◌/◌, ◌%◌, ◌≤◌, ◌<◌, String, ◌<>◌, len, slice, ◌≡◌, refl, sym, ap,
  subst, ◌∙◌, ◌≢◌, ◌↔◌, ◌⊎◌, inl, inr, Bool, true, false, not, ◌&&◌, ◌||◌, Option, none, some, List,
  [], ◌∷◌, ◌++◌, map, arith, ltb, leb, nat_beq, if◌then◌else◌, nat_beq_iff, ltb→lt, lt→ltb, leb→le,
  Bool-cases, Option-cases, &&_left, &&_right, Comparable, ◌==◌, nat_comparable, string_comparable,
  ==_refl, ==_sound, ==_sym, length, is_empty, get_elem?, drop, filter, All, length-append,
  filter-append, All-append, All-map,
}
use gpbackup.Utils.Io.{FileWithByteCount, must_print}
use gpbackup.Utils.Text.{make_fqn}
use gpbackup.Toc.{MetadataEntry, Section, postdata, Toc, add_metadata_entry}

-- Postdata metadata is marked as such for the batching of a parallel restore.
unfoldable pub mark_postdata : Section → MetadataEntry → MetadataEntry
mark_postdata postdata entry = record entry {
  object_type = entry.object_type <> " METADATA";
  reference_object = if entry.schema == "" then entry.name else make_fqn entry.schema entry.name;
}
mark_postdata _ entry = entry

abbrev pub frame : String → String
frame statement = "\n\n" <> (statement <> "\n")

-- `obj` is what `obj.GetMetadataEntry()` returns.
unfoldable pub print_statements :
    FileWithByteCount
    → Toc
    → Section × MetadataEntry
    → List String
    → List ℕ
    → FileWithByteCount × Toc
unfolding mark_postdata must_print add_metadata_entry
print_statements file toc obj [] tier = (file, toc)
print_statements file toc obj (statement ∷ statements) tier =
    let after = must_print file (frame statement) in
    let (section, entry) = obj in
    let toc' =
      add_metadata_entry toc section (mark_postdata section entry) file.byte_count after.byte_count
        tier in
    print_statements after toc' obj statements tier
