-- ===== src/Tests/OfToc.antt =====
-- The theorems on the package toc at concrete inputs.
use gpbackup.Base.{
  String, ◌≡◌, refl, ap, ◌≢◌, true, false, ◌&&◌, [], ◌∷◌, arith, ◌==◌, nat_comparable,
  string_comparable,
}
use gpbackup.Base.Counting.{contains}
use gpbackup.Base.Words.{pos}
use gpbackup.Utils.FilterSet.{new_exclude_set, matches_filter}
use gpbackup.Toc.{MetadataEntry, CoordinatorDataEntry, Toc}
use gpbackup.Toc.Filters.{should_include_statement, should_include_statement-excluded}
use gpbackup.Toc.DataEntries.{root_fqn, entry_fqn, DataFilters, schema_filter, matches_entry}
use gpbackup.Toc.DataEntries.Partitions.{matches_entry-follows_root}

nonempty : (s : String) → (s == "") ≡ false → s ≢ ""
nonempty s h = λ e. let same : (s == "") ≡ true = ap (λ z. z == "") e in ground (arith, h, same)

abbrev index_entry : MetadataEntry
index_entry = record {
  schema = "s";
  name = "i";
  object_type = "INDEX";
  reference_object = "s.t";
  start_byte = 0;
  end_byte = 9;
  tier = [];
}

should_include_statement-excluded_example :
    should_include_statement index_entry
      (new_exclude_set [])
      (new_exclude_set [])
      (new_exclude_set ("s.t" ∷ []))
    ≡ false
should_include_statement-excluded_example =
    should_include_statement-excluded index_entry (new_exclude_set []) (new_exclude_set [])
      ("s.t" ∷ []) refl (nonempty "s.t" refl)

-- A leaf partition of the table s.t.
abbrev leaf : CoordinatorDataEntry
leaf = record {
  schema = "s";
  name = "t_1";
  oid = 5;
  attribute_string = "(a)";
  rows_copied = pos 0;
  partition_root = "t";
  is_replicated = false;
  dist_by_enum = false;
}

abbrev leaf_toc : Toc
leaf_toc = record {
  global_entries = [];
  predata_entries = [];
  postdata_entries = [];
  statistics_entries = [];
  data_entries = leaf ∷ [];
  ao = [];
}

abbrev leaf_filters : DataFilters
leaf_filters = record {
  include_schemas = [];
  exclude_schemas = [];
  include_table_fqns = "s.t" ∷ [];
  exclude_table_fqns = [];
  restore_plan_table_fqns = "s.t_1" ∷ [];
}

matches_entry-follows_root_example :
    (contains (root_fqn leaf) leaf_filters.include_table_fqns ≡ true
      → matches_entry leaf_toc leaf_filters leaf ≡ (
          contains (entry_fqn leaf) leaf_filters.restore_plan_table_fqns
          && matches_filter (schema_filter leaf_filters) leaf.schema))
    × (leaf_filters.include_table_fqns ≡ []
        → contains (root_fqn leaf) leaf_filters.exclude_table_fqns ≡ true
        → matches_entry leaf_toc leaf_filters leaf ≡ false)
matches_entry-follows_root_example =
    matches_entry-follows_root leaf_toc leaf_filters [] [] leaf refl (nonempty "t" refl)
