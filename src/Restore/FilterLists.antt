-- ===== src/Restore/FilterLists.antt =====
-- restore/validate.go: the filter lists of a restore against the backup set and the database.
pub mod Missing
use gpbackup.Base.{
  ℕ, zero, suc, ◌+◌, ◌-◌, ◌*◌, ◌/◌, ◌%◌, ◌≤◌, ◌<◌, String, ◌<>◌, len, slice, ◌≡◌, refl, sym, ap,
  subst, ◌∙◌, ◌≢◌, ◌↔◌, ◌⊎◌, inl, inr, Bool, true, false, not, ◌&&◌, ◌||◌, Option, none, some, List,
  [], ◌∷◌, ◌++◌, map, arith, ltb, leb, nat_beq, if◌then◌else◌, nat_beq_iff, ltb→lt, lt→ltb, leb→le,
  Bool-cases, Option-cases, &&_left, &&_right, Comparable, ◌==◌, nat_comparable, string_comparable,
  ==_refl, ==_sound, ==_sym, length, is_empty, get_elem?, drop, filter, All, length-append,
  filter-append, All-append, All-map,
}
use gpbackup.Base.Counting.{
  contains, count, remove, IsDistinct, Included, count-append, contains-append, contains→count,
  count→contains, not-contains→count, length-le_of_Included, Included-of_length,
}
use gpbackup.Base.Results.{Outcome, ok, fatal, ◌>>=◌, ◌>>◌, fatal_if, >>-eq-ok}
use gpbackup.Utils.FilterSet.{put_items, new_set, new_include_set, new_exclude_set, matches_filter}
use gpbackup.Utils.Text.{make_fqn, join}
use gpbackup.Toc.{MetadataEntry, CoordinatorDataEntry, Toc}
use gpbackup.Backup.Incremental.{RestorePlanEntry}

-- The loop that deletes what is found from the map of the listed names, and returns nothing as
-- soon as the map is empty.
unfoldable pub delete_found : List String → List String → List String
delete_found names [] = names
delete_found names (found ∷ rest) =
    let left = remove found names in
    let later = delete_found left rest in if is_empty left then [] else later

abbrev pub predata_schemas : List MetadataEntry → List String
predata_schemas [] = []
predata_schemas (entry ∷ entries) = entry.schema ∷ predata_schemas entries

abbrev pub data_schemas : List CoordinatorDataEntry → List String
data_schemas [] = []
data_schemas (entry ∷ entries) = entry.schema ∷ data_schemas entries

-- `data_only` is that of the backup.
unfoldable pub get_filter_schemas_in_backup_set : Bool → Toc → List String → List String
unfolding delete_found
get_filter_schemas_in_backup_set data_only toc schema_list =
    if is_empty schema_list
    then []
    else delete_found (put_items schema_list []) (
        if not data_only
        then predata_schemas toc.predata_entries
        else data_schemas toc.data_entries)

unfoldable pub is_filterable : String → Bool
is_filterable object_type =
    object_type == "TABLE"
    || object_type == "SEQUENCE"
    || object_type == "VIEW"
    || object_type == "MATERIALIZED VIEW"
    || object_type == "QD ONLY TABLE DATA"

unfoldable pub filterable_fqns : List MetadataEntry → List String
unfolding is_filterable make_fqn
filterable_fqns [] = []
filterable_fqns (entry ∷ entries) =
    let rest = filterable_fqns entries in
    if is_filterable entry.object_type then make_fqn entry.schema entry.name ∷ rest else rest

abbrev pub plan_fqns : List RestorePlanEntry → List String
plan_fqns [] = []
plan_fqns (entry ∷ plan) = entry.table_fqns ++ plan_fqns plan

unfoldable pub get_filter_relations_in_backup_set :
    Toc → List RestorePlanEntry → List String → List String
unfolding delete_found filterable_fqns
get_filter_relations_in_backup_set toc plan relation_list =
    if is_empty relation_list
    then []
    else delete_found
        (delete_found (put_items relation_list []) (filterable_fqns toc.predata_entries))
        (plan_fqns plan)

unfoldable pub validate_include_schemas_in_backup_set :
    Bool → Toc → List String → Outcome (Unit {0})
unfolding get_filter_schemas_in_backup_set join
validate_include_schemas_in_backup_set data_only toc schema_list =
    let keys = get_filter_schemas_in_backup_set data_only toc schema_list in
    fatal_if (not (is_empty keys))
      ("Could not find the following schema(s) in the backup set: " <> join keys ", ")

unfoldable pub validate_include_relations_in_backup_set :
    Toc → List RestorePlanEntry → List String → Outcome (Unit {0})
unfolding get_filter_relations_in_backup_set join
validate_include_relations_in_backup_set toc plan relation_list =
    let keys = get_filter_relations_in_backup_set toc plan relation_list in
    fatal_if (not (is_empty keys))
      ("Could not find the following relation(s) in the backup set: " <> join keys ", ")

pub record RestoreOptions : Type 0 where
  pub included_schemas : List String
  pub excluded_schemas : List String
  pub included_relations : List String
  pub excluded_relations : List String

unfoldable pub relations_to_restore : RestoreOptions → List CoordinatorDataEntry → List String
unfolding make_fqn matches_filter
relations_to_restore opts [] = []
relations_to_restore opts (entry ∷ entries) =
    let rest = relations_to_restore opts entries in
    let fqn = make_fqn entry.schema entry.name in
    if matches_filter (new_include_set opts.included_schemas) entry.schema
      && matches_filter (new_exclude_set opts.excluded_schemas) entry.schema
      && matches_filter (new_exclude_set opts.excluded_relations) fqn
    then fqn ∷ rest
    else rest

unfoldable pub generate_restore_relation_list : RestoreOptions → Toc → List String
unfolding relations_to_restore
generate_restore_relation_list opts toc =
    if ltb 0 (length opts.included_relations)
    then opts.included_relations
    else relations_to_restore opts toc.data_entries

-- The loop over the relations to restore, which keeps the message of the last one that is missing.
missing_message : List String → List String → String → String
unfolding matches_filter new_set
missing_message in_db [] message = message
missing_message in_db (relation ∷ relations) message = missing_message in_db relations (
    if matches_filter (new_set in_db) relation
    then message
    else "Relation " <> (relation <> " must exist for data-only restore"))

already_message : List String → String
already_message [] = ""
already_message (relation ∷ relations) = "Relation " <> (relation <> " already exists")

-- `in_db` are those of the relations that the query finds in the database.
unfoldable pub validate_relations_in_restore_database :
    Bool → List String → List String → Outcome (Unit {0})
unfolding missing_message already_message
validate_relations_in_restore_database data_only in_db relation_list =
    if is_empty relation_list
    then ok tt
    else let message =
        if data_only
        then (if ltb (length in_db) (length relation_list)
            then missing_message in_db relation_list ""
            else "")
        else already_message in_db in
      fatal_if (not (message == "")) message

unfoldable pub validate_database_existence : Bool → Bool → Bool → Outcome (Unit {0})
validate_database_existence database_exists create_database is_filtered =
    if not database_exists
    then (if is_filtered
        then fatal
            "The database must be created manually to restore table-filtered or data-only backups."
        else fatal_if (not create_database)
            "The database does not exist. Use the --create-db flag.")
    else fatal_if create_database "The database already exists."
