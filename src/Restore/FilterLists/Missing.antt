-- ===== src/Restore/FilterLists/Missing.antt =====
-- restore/validate.go: which names of a filter list are reported as missing.
use gpbackup.Base.{
  String, ◌<>◌, ◌||◌, ◌≡◌, refl, sym, ap, ◌∙◌, inl, inr, Bool, true, false, not, ◌&&◌, List, [],
  ◌∷◌, arith, if◌then◌else◌, Bool-cases, ◌==◌, nat_comparable, string_comparable, ==_sound, ==_sym,
  is_empty,
}
use gpbackup.Base.Counting.{contains, contains-append, remove, IsDistinct}
use gpbackup.Utils.FilterSet.{put_items}
use gpbackup.Utils.FilterSet.Laws.{contains-put_items, put_items-IsDistinct}
use gpbackup.Utils.Text.{make_fqn}
use gpbackup.Toc.{Toc, MetadataEntry}
use gpbackup.Backup.Incremental.{RestorePlanEntry}
use gpbackup.Restore.FilterLists.{
  delete_found, predata_schemas, data_schemas, get_filter_schemas_in_backup_set, is_filterable,
  filterable_fqns, plan_fqns, get_filter_relations_in_backup_set,
}

contains-remove :
    (a b : String) (xs : List String)
    → IsDistinct xs
    → contains b (remove a xs) ≡ (contains b xs && not (a == b))
contains-remove a b [] d = refl
contains-remove a b (x ∷ xs) d = elim (Bool-cases (x == a)) [
  | inl e ↦
      let same = ==_sound x a e in
      let gone = ap (λ z. contains z xs) same in
      let both = ap (λ z. z == b) same in
      let absent = ap (λ z. contains z xs) {x = a} {y = b} in
      ground (arith, e, gone, both, d.0, absent, ==_sound a b)
  | inr e ↦
      let both = ==_sound x b in
      let swapped = ap (λ z. z == a) {x = x} {y = b} in
      ground (arith, e, contains-remove a b xs d.1, both, swapped, ==_sym a b)
]

remove-IsDistinct : (a : String) (xs : List String) → IsDistinct xs → IsDistinct (remove a xs)
remove-IsDistinct a [] d = tt
remove-IsDistinct a (x ∷ xs) d = elim (Bool-cases (x == a)) [
  | inl e ↦ rw e d.1
  | inr e ↦ rw e (contains-remove a x xs d.1 ∙ rw d.0, remove-IsDistinct a xs d.1)
]

delete_found-IsDistinct :
    (names found : List String) → IsDistinct names → IsDistinct (delete_found names found)
unfolding delete_found
delete_found-IsDistinct names [] d = d
delete_found-IsDistinct names (f ∷ found) d = elim (Bool-cases (is_empty (remove f names))) [
  | inl e ↦ rw e tt
  | inr e ↦ rw e (delete_found-IsDistinct (remove f names) found (remove-IsDistinct f names d))
]

contains-empty : (b : String) (xs : List String) → is_empty xs ≡ true → contains b xs ≡ false
contains-empty b [] h = refl
contains-empty b (x ∷ xs) h = ground arith

contains-delete_found :
    (b : String) (names found : List String)
    → IsDistinct names
    → contains b (delete_found names found) ≡ (contains b names && not (contains b found))
unfolding delete_found
contains-delete_found b names [] d = ground arith
contains-delete_found b names (f ∷ found) d = elim (Bool-cases (is_empty (remove f names))) [
  | inl e ↦ rw e (ground (arith, contains-remove f b names d, contains-empty b (remove f names) e))
  | inr e ↦ rw e (
      contains-delete_found b (remove f names) found (remove-IsDistinct f names d)
      ∙ ground (arith, contains-remove f b names d))
]

-- A schema is reported as missing exactly when it is listed and no entry of the backup has it: no
-- predata entry, or for a data-only backup no data entry.
pub get_filter_schemas_lem :
    (data_only : Bool) (toc : Toc) (list : List String) (s : String)
    → contains s (get_filter_schemas_in_backup_set data_only toc list) ≡ (
        contains s list
        && not (
            contains s (
              if data_only
              then data_schemas toc.data_entries
              else predata_schemas toc.predata_entries)))
unfolding get_filter_schemas_in_backup_set
get_filter_schemas_lem data_only toc [] s = refl
get_filter_schemas_lem data_only toc (x ∷ xs) s =
    contains-delete_found s (put_items (x ∷ xs) [])
      (if not data_only then predata_schemas toc.predata_entries else data_schemas toc.data_entries)
      (put_items-IsDistinct (x ∷ xs) [] tt)
    ∙ ground (arith, contains-put_items s (x ∷ xs) [])

abbrev pub any {ℓ} : {A : Type ℓ} → (A → Bool) → List A → Bool
any p [] = false
any p (x ∷ xs) = p x || any p xs

-- A predata entry of a relation with a given name.
abbrev pub names_relation : String → MetadataEntry → Bool
names_relation s entry =
    contains entry.object_type
      ("TABLE" ∷ "SEQUENCE" ∷ "VIEW" ∷ "MATERIALIZED VIEW" ∷ "QD ONLY TABLE DATA" ∷ [])
    && entry.schema <> ("." <> entry.name) == s

is_filterable_lem :
    (object_type : String)
    → is_filterable object_type
      ≡ contains object_type
          ("TABLE" ∷ "SEQUENCE" ∷ "VIEW" ∷ "MATERIALIZED VIEW" ∷ "QD ONLY TABLE DATA" ∷ [])
unfolding is_filterable
is_filterable_lem object_type =
    rw
      (
        ==_sym object_type "TABLE",
        ==_sym object_type "SEQUENCE",
        ==_sym object_type "VIEW",
        ==_sym object_type "MATERIALIZED VIEW",
        ==_sym object_type "QD ONLY TABLE DATA",
      )
      (cases ("TABLE" == object_type) ("SEQUENCE" == object_type) ("VIEW" == object_type)
        ("MATERIALIZED VIEW" == object_type) ("QD ONLY TABLE DATA" == object_type))
  where
    cases : (a b c d e : Bool) → (a || b || c || d || e) ≡ (a || (b || (c || (d || (e || false)))))
    cases a b c d e = ground arith

contains-filterable_fqns :
    (s : String) (entries : List MetadataEntry)
    → contains s (filterable_fqns entries) ≡ any (names_relation s) entries
unfolding filterable_fqns make_fqn
contains-filterable_fqns s [] = refl
contains-filterable_fqns s (entry ∷ entries) = elim (Bool-cases (is_filterable entry.object_type)) [
  | inl it_is ↦
      rw (sym (is_filterable_lem entry.object_type), it_is, filterable_fqns)
        (ap (λ rest. entry.schema <> ("." <> entry.name) == s || rest)
          (contains-filterable_fqns s entries))
  | inr is_not ↦
      rw (sym (is_filterable_lem entry.object_type), is_not, filterable_fqns)
        (contains-filterable_fqns s entries)
]

contains-plan_fqns :
    (s : String) (plan : List RestorePlanEntry)
    → contains s (plan_fqns plan) ≡ any (λ entry. contains s entry.table_fqns) plan
contains-plan_fqns s [] = refl
contains-plan_fqns s (entry ∷ plan) =
    ground (arith, contains-append s entry.table_fqns (plan_fqns plan), contains-plan_fqns s plan)

-- A relation is reported as missing exactly when it is listed, no predata entry of a table, a
-- sequence, a view, a materialized view or a table that only the coordinator has carries its name,
-- and no entry of the restore plan names it.
pub get_filter_relations_lem :
    (toc : Toc) (plan : List RestorePlanEntry) (list : List String) (s : String)
    → contains s (get_filter_relations_in_backup_set toc plan list) ≡ (
        (contains s list && not (any (names_relation s) toc.predata_entries))
        && not (any (λ entry. contains s entry.table_fqns) plan))
unfolding get_filter_relations_in_backup_set
get_filter_relations_lem toc plan [] s = refl
get_filter_relations_lem toc plan (x ∷ xs) s =
    let named = put_items-IsDistinct (x ∷ xs) [] tt in
    contains-delete_found s
      (delete_found (put_items (x ∷ xs) []) (filterable_fqns toc.predata_entries)) (plan_fqns plan)
      (delete_found-IsDistinct (put_items (x ∷ xs) []) (filterable_fqns toc.predata_entries) named)
    ∙ ground (
      arith,
      contains-delete_found s (put_items (x ∷ xs) []) (filterable_fqns toc.predata_entries) named,
      contains-put_items s (x ∷ xs) [],
      contains-filterable_fqns s toc.predata_entries,
      contains-plan_fqns s plan,
    )
