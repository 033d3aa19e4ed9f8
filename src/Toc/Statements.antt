-- ===== src/Toc/Statements.antt =====
-- toc/toc.go: reading the statements of a section back from the metadata file by byte range, and
-- dropping the statement that would create the active role.
use gpbackup.Base.{
  ℕ, ◌+◌, ◌-◌, ◌%◌, ◌<◌, String, ◌<>◌, len, slice, ◌≡◌, inl, inr, Bool, not, ◌&&◌, List, [], ◌∷◌,
  ◌++◌, arith, ltb, leb, if◌then◌else◌, lt→ltb, Bool-cases, ◌==◌, nat_comparable, string_comparable,
  filter,
}
use gpbackup.Base.Results.{Outcome, ok, fatal, ◌>>=◌, cons_outcome, cons_outcome-append}
use gpbackup.Base.Words.{u64, i64_limit}
use text.Mathlib.TextPositions.{slice-append_middle, len-append}
use gpbackup.Toc.{MetadataEntry, StatementWithType, Section, Toc, section_entries}
use gpbackup.Toc.Filters.{
  FilterLists, construct_filter_sets, construct_filter_set, should_include_statement,
}

-- `metadataFile.ReadAt(contents, int64(start))` for `n` bytes: it fails on a negative offset and
-- where the file ends before the range does.
unfoldable pub read_at : String → ℕ → ℕ → Outcome String
read_at contents start n =
    if ltb start i64_limit
    then if leb (start + n) (len contents)
      then ok (slice contents start (start + n))
      else fatal "EOF"
    else fatal "negative offset"

unfoldable pub read_entry : String → MetadataEntry → Outcome StatementWithType
unfolding read_at
read_entry contents entry =
    read_at contents entry.start_byte ((entry.end_byte + u64 - entry.start_byte) % u64) >>= λ text.
    ok (record {
      schema = entry.schema;
      name = entry.name;
      object_type = entry.object_type;
      reference_object = entry.reference_object;
      statement = text;
      tier = entry.tier;
    })

unfoldable pub read_entries :
    String → (MetadataEntry → Bool) → List MetadataEntry → Outcome (List StatementWithType)
unfolding read_entry
read_entries contents include [] = ok []
read_entries contents include (entry ∷ entries) =
    let rest = read_entries contents include entries in
    if include entry then cons_outcome (read_entry contents entry) rest else rest

unfoldable pub get_sql_statement_for_object_types :
    Toc → Section → String → FilterLists → Outcome (List StatementWithType)
unfolding read_entries construct_filter_set
get_sql_statement_for_object_types toc section contents f =
    let (object_set, schema_set, relation_set) = construct_filter_sets f in
    read_entries contents
      (λ entry. should_include_statement entry object_set schema_set relation_set)
      (section_entries section toc)

unfoldable pub remove_active_role : String → List StatementWithType → List StatementWithType
remove_active_role active_user statements =
    filter (λ statement. not (statement.object_type == "ROLE" && statement.name == active_user))
      statements

pub read_at-middle :
    (w s more : String) → len w < i64_limit → read_at (w <> (s <> more)) (len w) (len s) ≡ ok s
unfolding read_at
read_at-middle w s more h =
    rw (lt→ltb _ _ h, len-append w (s <> more), len-append s more)
      (ground (arith, slice-append_middle w s more))

pub read_entries-append :
    (contents : String) (include : MetadataEntry → Bool) (xs ys : List MetadataEntry)
    (ss ts : List StatementWithType)
    → read_entries contents include xs ≡ ok ss
    → read_entries contents include ys ≡ ok ts
    → read_entries contents include (xs ++ ys) ≡ ok (ss ++ ts)
unfolding read_entries
read_entries-append contents include [] ys ss ts hx hy = ground arith
read_entries-append contents include (x ∷ xs) ys ss ts hx hy = elim (Bool-cases (include x)) [
  | inl e ↦ rw e (
      cons_outcome-append (read_entry contents x) (read_entries contents include xs) _ ss ts
        (rw e at hx) (λ rs h. read_entries-append contents include xs ys rs ts h hy))
  | inr e ↦ rw e (read_entries-append contents include xs ys ss ts (rw e at hx) hy)
]
