-- ===== src/Toc/DataEntries.antt =====
-- toc/toc.go: the data entries, and which of them a restore of one timestamp takes.
pub mod Partitions
use gpbackup.Base.{
  ℕ, zero, suc, ◌+◌, ◌-◌, ◌*◌, ◌/◌, ◌%◌, ◌≤◌, ◌<◌, String, ◌<>◌, len, slice, ◌≡◌, refl, sym, ap,
  subst, ◌∙◌, ◌≢◌, ◌↔◌, ◌⊎◌, inl, inr, Bool, true, false, not, ◌&&◌, ◌||◌, Option, none, some, List,
  [], ◌∷◌, ◌++◌, map, arith, ltb, leb, nat_beq, if◌then◌else◌, nat_beq_iff, ltb→lt, lt→ltb, leb→le,
  Bool-cases, Option-cases, &&_left, &&_right, Comparable, ◌==◌, nat_comparable, string_comparable,
  ==_refl, ==_sound, ==_sym, length, is_empty, get_elem?, drop, filter, All, length-append,
  filter-append, All-append, All-map,
}
use gpbackup.Base.Maps.{GoMap, keys, lookup, put, delete, lookup-put, lookup-none}
use text.Mathlib.Text.{find?}
use gpbackup.Base.Words.{ℤ}
use gpbackup.Utils.FilterSet.{FilterSet, new_set, new_include_set, new_exclude_set, matches_filter}
use gpbackup.Utils.Text.{make_fqn}
use gpbackup.Toc.{CoordinatorDataEntry, Toc}

-- `strings.Contains`
abbrev pub contains_text : String → String → Bool
contains_text s t = elim (find? s t) [ none ↦ false | some _ ↦ true ]

unfoldable pub add_coordinator_data_entry :
    Toc → String → String → ℕ → String → ℤ → String → String → Bool → Toc
add_coordinator_data_entry toc schema name oid attributes rows_copied root dist_policy by_enum =
    record toc {
      data_entries =
          toc.data_entries
          ++ record {
            schema = schema;
            name = name;
            oid = oid;
            attribute_string = attributes;
            rows_copied = rows_copied;
            partition_root = root;
            is_replicated = contains_text dist_policy "REPLICATED";
            dist_by_enum = by_enum;
          }
            ∷ [];
    }

abbrev pub entry_fqn : CoordinatorDataEntry → String
entry_fqn entry = make_fqn entry.schema entry.name

abbrev pub root_fqn : CoordinatorDataEntry → String
root_fqn entry = make_fqn entry.schema entry.partition_root

-- `FQNToPartitionRoot`, filled entry by entry.
partition_roots : List CoordinatorDataEntry → GoMap String String → GoMap String String
partition_roots [] m = m
partition_roots (entry ∷ entries) m =
    partition_roots entries
      (if entry.partition_root == "" then m else put (entry_fqn entry) (root_fqn entry) m)

collect_roots : GoMap String String → List String → List String
collect_roots m [] = []
collect_roots m (relation ∷ relations) =
    let rest = collect_roots m relations in
    elim (lookup relation m) [ some root ↦ root ∷ rest | none ↦ rest ]

unfoldable pub get_included_partition_roots : List CoordinatorDataEntry → List String → List String
unfolding partition_roots collect_roots
get_included_partition_roots entries include_relations =
    if is_empty include_relations
    then []
    else collect_roots (partition_roots entries []) include_relations

-- The loop over the entries, with `tableSet` built from the table names.
leaf_partitions_in : FilterSet → List CoordinatorDataEntry → List String
leaf_partitions_in table_set [] = []
leaf_partitions_in table_set (entry ∷ entries) =
    let rest = leaf_partitions_in table_set entries in
    if entry.partition_root == ""
    then rest
    else if matches_filter table_set (root_fqn entry)
    then entry_fqn entry ∷ rest
    else rest

unfoldable pub get_leaf_partitions : List String → List CoordinatorDataEntry → List String
unfolding leaf_partitions_in
get_leaf_partitions table_fqns entries = leaf_partitions_in (new_set table_fqns) entries

-- The filters that a restore passes for one entry of the restore plan.
pub record DataFilters : Type 0 where
  pub include_schemas : List String
  pub exclude_schemas : List String
  pub include_table_fqns : List String
  pub exclude_table_fqns : List String
  pub restore_plan_table_fqns : List String

unfoldable pub schema_filter : DataFilters → FilterSet
schema_filter f =
    if ltb 0 (length f.include_schemas)
    then new_include_set f.include_schemas
    else if ltb 0 (length f.exclude_schemas)
    then new_exclude_set f.exclude_schemas
    else new_include_set []

-- A listed table brings its leaf partitions into the set.
unfoldable pub table_filter : List CoordinatorDataEntry → DataFilters → FilterSet
unfolding get_leaf_partitions
table_filter entries f =
    if ltb 0 (length f.include_table_fqns)
    then new_include_set (f.include_table_fqns ++ get_leaf_partitions f.include_table_fqns entries)
    else if ltb 0 (length f.exclude_table_fqns)
    then new_exclude_set (f.exclude_table_fqns ++ get_leaf_partitions f.exclude_table_fqns entries)
    else new_include_set []

unfoldable pub matches_entry : Toc → DataFilters → CoordinatorDataEntry → Bool
unfolding schema_filter table_filter
matches_entry toc f entry =
    matches_filter (new_set f.restore_plan_table_fqns) (entry_fqn entry)
    && (matches_filter (schema_filter f) entry.schema
        && matches_filter (table_filter toc.data_entries f) (entry_fqn entry))

unfoldable pub get_data_entries_matching : Toc → DataFilters → List CoordinatorDataEntry
unfolding matches_entry
get_data_entries_matching toc f = filter (matches_entry toc f) toc.data_entries
