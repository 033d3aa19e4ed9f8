-- ===== src/Toc/DataEntries/Partitions.antt =====
-- toc/toc.go: leaf partitions follow their root through the table filters.
use gpbackup.Base.{
  String, ◌≡◌, ◌∙◌, ◌≢◌, true, false, not, ◌&&◌, ◌||◌, List, [], ◌∷◌, ◌++◌, arith, ltb, ◌==◌,
  nat_comparable, string_comparable, ==_refl, length, is_empty,
}
use gpbackup.Base.Counting.{contains, contains-append}
use text.Mathlib.TextEquality.{eq_iff}
use gpbackup.Utils.FilterSet.{FilterSet, new_set, matches_filter}
use gpbackup.Utils.FilterSet.Laws.{
  matches_filter-new_set, matches_filter-include, matches_filter-exclude,
}
use gpbackup.Toc.{CoordinatorDataEntry, Toc}
use gpbackup.Toc.DataEntries.{
  entry_fqn, root_fqn, leaf_partitions_in, get_leaf_partitions, DataFilters, schema_filter,
  table_filter, matches_entry,
}

contains-leaf_partitions_in :
    (table_set : FilterSet) (before after : List CoordinatorDataEntry)
    (entry : CoordinatorDataEntry)
    → (entry.partition_root == "") ≡ false
    → matches_filter table_set (root_fqn entry) ≡ true
    → contains (entry_fqn entry) (leaf_partitions_in table_set (before ++ entry ∷ after)) ≡ true
unfolding leaf_partitions_in
contains-leaf_partitions_in table_set [] after entry n m =
    rw (n, m) (ground (arith, ==_refl (entry_fqn entry)))
contains-leaf_partitions_in table_set (x ∷ before) after entry n m =
    ground (arith, contains-leaf_partitions_in table_set before after entry n m)

pub contains-get_leaf_partitions :
    (tables : List String) (before after : List CoordinatorDataEntry) (entry : CoordinatorDataEntry)
    → entry.partition_root ≢ ""
    → contains (root_fqn entry) tables ≡ true
    → contains (entry_fqn entry) (get_leaf_partitions tables (before ++ entry ∷ after)) ≡ true
unfolding get_leaf_partitions
contains-get_leaf_partitions tables before after entry n h =
    contains-leaf_partitions_in (new_set tables) before after entry
      (ground (arith, eq_iff entry.partition_root ""))
      (matches_filter-new_set tables (root_fqn entry) ∙ h)

nonempty_of_contains :
    (s : String) (xs : List String) → contains s xs ≡ true → ltb 0 (length xs) ≡ true
nonempty_of_contains s [] h = ground arith
nonempty_of_contains s (x ∷ xs) h = ground arith

not_matched :
    (s : String) (xs : List String)
    → contains s xs ≡ true
    → (is_empty xs || not (contains s xs)) ≡ false
not_matched s [] h = ground arith
not_matched s (x ∷ xs) h = rw h

module _ (f : DataFilters) (entries before after : List CoordinatorDataEntry)
    (entry : CoordinatorDataEntry) (e : entries ≡ before ++ entry ∷ after)
    (n : entry.partition_root ≢ "") where
  leaf_listed :
      (tables : List String)
      → contains (root_fqn entry) tables ≡ true
      → contains (entry_fqn entry) (tables ++ get_leaf_partitions tables entries) ≡ true
  leaf_listed tables h =
      contains-append (entry_fqn entry) tables (get_leaf_partitions tables entries)
      ∙ rw e (rw (contains-get_leaf_partitions tables before after entry n h) (ground arith))

  table_filter-included :
      contains (root_fqn entry) f.include_table_fqns ≡ true
      → matches_filter (table_filter entries f) (entry_fqn entry) ≡ true
  unfolding table_filter
  table_filter-included h = rw (nonempty_of_contains _ _ h) (
      matches_filter-include _ (entry_fqn entry)
      ∙ rw (leaf_listed f.include_table_fqns h) (ground arith))

  table_filter-excluded :
      f.include_table_fqns ≡ []
      → contains (root_fqn entry) f.exclude_table_fqns ≡ true
      → matches_filter (table_filter entries f) (entry_fqn entry) ≡ false
  unfolding table_filter
  table_filter-excluded none_included h = rw none_included (
      rw (nonempty_of_contains _ _ h) (
        matches_filter-exclude _ (entry_fqn entry)
        ∙ not_matched (entry_fqn entry) _ (leaf_listed f.exclude_table_fqns h)))

-- A leaf partition is restored with an included root exactly when the restore plan and the schema
-- filter take it, and it is never restored under an excluded root when no table is included.
pub matches_entry-follows_root :
    (toc : Toc) (f : DataFilters) (before after : List CoordinatorDataEntry)
    (entry : CoordinatorDataEntry)
    → toc.data_entries ≡ before ++ entry ∷ after
    → entry.partition_root ≢ ""
    → (contains (root_fqn entry) f.include_table_fqns ≡ true
        → matches_entry toc f entry ≡ (
            contains (entry_fqn entry) f.restore_plan_table_fqns
            && matches_filter (schema_filter f) entry.schema))
      × (f.include_table_fqns ≡ []
          → contains (root_fqn entry) f.exclude_table_fqns ≡ true
          → matches_entry toc f entry ≡ false)
unfolding matches_entry
matches_entry-follows_root toc f before after entry e n = (
  λ h. ground (
    arith,
    table_filter-included f toc.data_entries before after entry e n h,
    matches_filter-new_set f.restore_plan_table_fqns (entry_fqn entry),
  ),
  λ none_included h.
      ground
        (arith, table_filter-excluded f toc.data_entries before after entry e n none_included h),
)
