-- ===== src/Toc/Filters.antt =====
-- toc/toc.go: which entries a restore takes, by object type, schema and relation.
use gpbackup.Base.{
  String, ◌≡◌, refl, ◌∙◌, ◌≢◌, Bool, true, false, not, ◌&&◌, ◌||◌, List, [], ◌∷◌, arith, ltb,
  if◌then◌else◌, ◌==◌, nat_comparable, string_comparable, length, is_empty,
}
use gpbackup.Base.Counting.{contains}
use gpbackup.Utils.FilterSet.{FilterSet, new_include_set, new_exclude_set, matches_filter}
use gpbackup.Utils.FilterSet.Laws.{matches_filter-exclude}
use gpbackup.Utils.Text.{make_fqn}
use gpbackup.Toc.{MetadataEntry}
use text.Mathlib.TextEquality.{eq_iff}

-- The six lists that `GetSQLStatementForObjectTypes` is called with.
pub record FilterLists : Type 0 where
  pub include_object_types : List String
  pub exclude_object_types : List String
  pub include_schemas : List String
  pub exclude_schemas : List String
  pub include_relations : List String
  pub exclude_relations : List String

unfoldable pub construct_filter_set : List String → List String → FilterSet
construct_filter_set include exclude =
    if ltb 0 (length include) then new_include_set include else new_exclude_set exclude

abbrev pub construct_filter_sets : FilterLists → FilterSet × FilterSet × FilterSet
construct_filter_sets f = (
  construct_filter_set f.include_object_types f.exclude_object_types,
  construct_filter_set f.include_schemas f.exclude_schemas,
  construct_filter_set f.include_relations f.exclude_relations,
)

-- TABLE, VIEW, MATERIALIZED VIEW, SEQUENCE and STATISTICS
unfoldable pub is_relation_type : String → Bool
is_relation_type t =
    t == "TABLE"
    || (t == "VIEW" || (t == "MATERIALIZED VIEW" || (t == "SEQUENCE" || t == "STATISTICS")))

-- A leaf partition whose root is excluded.
unfoldable pub include_leaf_partition : MetadataEntry → FilterSet → Bool
include_leaf_partition entry relation_set = not (
    relation_set.is_exclude
    && (not (entry.reference_object == "")
        && not (matches_filter relation_set entry.reference_object)))

unfoldable pub should_include_relation : MetadataEntry → FilterSet → Bool
unfolding is_relation_type include_leaf_partition
should_include_relation entry relation_set =
    let relation_fqn = make_fqn entry.schema entry.name in
    let has_reference = not (entry.reference_object == "") in
    let is_owner = entry.object_type == "SEQUENCE OWNER" in
    let reference_matches = matches_filter relation_set entry.reference_object in
    (relation_set.is_exclude && (not (is_relation_type entry.object_type) && not has_reference))
    || ((is_relation_type entry.object_type
          && (matches_filter relation_set relation_fqn
              && include_leaf_partition entry relation_set))
        || ((not is_owner && (has_reference && reference_matches))
            || (is_owner && (matches_filter relation_set relation_fqn && reference_matches))))

unfoldable pub should_include_statement : MetadataEntry → FilterSet → FilterSet → FilterSet → Bool
unfolding should_include_relation
should_include_statement entry object_set schema_set relation_set =
    matches_filter object_set entry.object_type
    && (matches_filter schema_set entry.schema && should_include_relation entry relation_set)

pub should_include_relation-excluded :
    (entry : MetadataEntry) (relation_set : FilterSet)
    → relation_set.is_exclude ≡ true
    → matches_filter relation_set entry.reference_object ≡ false
    → (entry.reference_object == "") ≡ false
    → should_include_relation entry relation_set ≡ false
unfolding should_include_relation
should_include_relation-excluded entry relation_set x m n = rw (m, n, x) (ground arith)

not-empty-contained : (s : String) (xs : List String) → contains s xs ≡ true → is_empty xs ≡ false
not-empty-contained s [] h = ground arith
not-empty-contained s (x ∷ xs) h = refl

is_exclude-new : (xs : List String) → (new_exclude_set xs).is_exclude ≡ true
unfolding new_exclude_set
is_exclude-new xs = refl

-- Under an exclude list, an entry that refers to an excluded relation is left out whatever its
-- type: leaf partitions, indexes, sequence owners and statistics follow their table.
pub should_include_statement-excluded :
    (entry : MetadataEntry) (object_set schema_set : FilterSet) (excluded : List String)
    → contains entry.reference_object excluded ≡ true
    → entry.reference_object ≢ ""
    → should_include_statement entry object_set schema_set (new_exclude_set excluded) ≡ false
unfolding should_include_statement
should_include_statement-excluded entry object_set schema_set excluded h n = ground (
  arith,
  should_include_relation-excluded entry (new_exclude_set excluded) (is_exclude-new excluded) (
      matches_filter-exclude excluded entry.reference_object
      ∙ ground (arith, h, not-empty-contained entry.reference_object excluded)),
  eq_iff entry.reference_object "",
)

-- With no filter given every entry is included.
pub should_include_statement-unfiltered :
    (entry : MetadataEntry)
    → should_include_statement entry (new_exclude_set []) (new_exclude_set []) (new_exclude_set [])
      ≡ true
unfolding should_include_statement new_exclude_set matches_filter
should_include_statement-unfiltered entry = ground arith
