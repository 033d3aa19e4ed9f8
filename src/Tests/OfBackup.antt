-- ===== src/Tests/OfBackup.antt =====
-- The theorems on the package backup at concrete inputs.
use gpbackup.Base.{
  ℕ, ◌<◌, String, ◌<>◌, ◌≡◌, refl, sym, ap, subst, ◌∙◌, inl, inr, true, false, List, [], ◌∷◌, ◌++◌,
  arith, Bool-cases, ◌==◌, nat_comparable, string_comparable, ==_sound,
}
use gpbackup.Base.Counting.{contains, count, IsDistinct}
use gpbackup.Base.Maps.{GoMap}
use gpbackup.Base.Results.{ok}
use gpbackup.Base.Words.{pos}
use gpbackup.Utils.Io.{new_file_with_byte_count}
use gpbackup.Toc.{predata, MetadataEntry, AoEntry, Toc, StatementWithType}
use gpbackup.Toc.Statements.{get_sql_statement_for_object_types}
use gpbackup.Backup.Metadata.{print_statements}
use gpbackup.Backup.Metadata.RoundTrip.{print_statements-get_sql, no_filters, texts, frames}
use gpbackup.Backup.Incremental.{
  RestorePlanEntry, populate_restore_plan, filter_tables_for_incremental, is_unchanged,
}
use gpbackup.Backup.Incremental.Plan.{
  plan_tables, incremental_plan_complete, count-populate_restore_plan,
}
use gpbackup.Backup.Objects.{UniqueId, unique_id_beq, unique_id_comparable}
use gpbackup.Backup.Sort.{Sortable, ids, DependencyMap, deps_of, topological_sort}
use gpbackup.Backup.Sort.Pending.{Follows}
use gpbackup.Backup.Sort.Result.{topological_sort-order, topological_sort-succeeds}
use gpbackup.Backup.Acl.{privilege_comparable}

abbrev id_of : ℕ → UniqueId
id_of n = record { class_id = 1259; oid = n }

abbrev item_of : ℕ → Sortable
item_of n = record { unique_id = id_of n; fqn = "public.t" }

-- A view on a table, in front of it.
abbrev two_items : List Sortable
two_items = item_of 2 ∷ item_of 1 ∷ []

abbrev view_dependencies : DependencyMap
view_dependencies = (id_of 2, id_of 1 ∷ []) ∷ []

two_items-IsDistinct : IsDistinct (ids two_items)
unfolding unique_id_beq
two_items-IsDistinct = (refl, (refl, tt))

view_dependencies-IsDistinct : (id : UniqueId) → IsDistinct (deps_of view_dependencies id)
view_dependencies-IsDistinct id = elim (Bool-cases (id_of 2 == id)) [
  | inl e ↦ rw (e, deps_of) (refl, tt)
  | inr e ↦ rw (e, deps_of) tt
]

topological_sort-order_example :
    Follows view_dependencies [] (id_of 1 ∷ id_of 2 ∷ [])
    × ((id : UniqueId) → count id (id_of 1 ∷ id_of 2 ∷ []) ≡ count id (ids two_items))
unfolding topological_sort unique_id_beq
topological_sort-order_example =
    topological_sort-order two_items view_dependencies (item_of 1 ∷ item_of 2 ∷ []) _
      two_items-IsDistinct view_dependencies-IsDistinct refl

deps_of_view :
    (id : UniqueId) → (id_of 2 == id) ≡ true → deps_of view_dependencies id ≡ id_of 1 ∷ []
deps_of_view id e = rw (e, deps_of) refl

deps_of_other : (id : UniqueId) → (id_of 2 == id) ≡ false → deps_of view_dependencies id ≡ []
deps_of_other id e = rw (e, deps_of) refl

below_view :
    (d : UniqueId)
    → contains d (id_of 1 ∷ []) ≡ true
    → (contains d (ids two_items) ≡ true) × (d.oid < 2)
unfolding unique_id_beq
below_view d h =
    subst (λ d. (contains d (ids two_items) ≡ true) × (d.oid < 2))
      (==_sound (id_of 1) d (ground (arith, h))) (refl, omega arith)

view_rank :
    (id d : UniqueId)
    → contains id (ids two_items) ≡ true
    → contains d (deps_of view_dependencies id) ≡ true
    → (contains d (ids two_items) ≡ true) × (d.oid < id.oid)
view_rank id d k h = elim (Bool-cases (id_of 2 == id)) [
  | inl e ↦
      let (inside, below) = below_view d (sym (ap (contains d) (deps_of_view id e)) ∙ h) in
      let same : 2 ≡ id.oid = ap (λ z. z.oid) (==_sound (id_of 2) id e) in
      (inside, omega (arith, below, same))
  | inr e ↦ absurd (ground (arith, sym (ap (contains d) (deps_of_other id e)) ∙ h))
]

topological_sort-succeeds_example :
    (sorted : List Sortable) × (tiers : UniqueId → ℕ) × (topological_sort two_items
        view_dependencies
      ≡ ok (sorted, tiers))
topological_sort-succeeds_example =
    topological_sort-succeeds two_items view_dependencies (λ id. id.oid) two_items-IsDistinct
      view_dependencies-IsDistinct view_rank

abbrev empty_toc : Toc
empty_toc = record {
  global_entries = [];
  predata_entries = [];
  postdata_entries = [];
  statistics_entries = [];
  data_entries = [];
  ao = [];
}

-- Two statements in an empty file.
abbrev schema_entry : MetadataEntry
schema_entry = record {
  schema = "s";
  name = "s";
  object_type = "SCHEMA";
  reference_object = "";
  start_byte = 0;
  end_byte = 0;
  tier = [];
}

abbrev two_statements : List String
two_statements = "CREATE SCHEMA s;" ∷ "ALTER SCHEMA s OWNER TO o;" ∷ []

print_statements-get_sql_example :
    (ss : List StatementWithType) × (get_sql_statement_for_object_types
        (print_statements new_file_with_byte_count empty_toc
          (predata, schema_entry)
          two_statements
          []).1
        predata
        ((print_statements new_file_with_byte_count empty_toc
            (predata, schema_entry)
            two_statements
            []).0.written
          <> "")
        no_filters
      ≡ ok ([] ++ ss))
    × (texts ss ≡ frames two_statements)
unfolding get_sql_statement_for_object_types print_statements new_file_with_byte_count
print_statements-get_sql_example =
    print_statements-get_sql new_file_with_byte_count empty_toc (predata, schema_entry)
      two_statements [] "" [] refl (omega arith) refl

abbrev ao_now : GoMap String AoEntry
ao_now =
    ("s.a", record { modcount = pos 2; last_ddl_timestamp = "1" })
    ∷ ("s.b", record { modcount = pos 5; last_ddl_timestamp = "1" })
    ∷ []

abbrev ao_before : GoMap String AoEntry
ao_before =
    ("s.a", record { modcount = pos 2; last_ddl_timestamp = "1" })
    ∷ ("s.b", record { modcount = pos 4; last_ddl_timestamp = "1" })
    ∷ []

abbrev old_plan : List RestorePlanEntry
old_plan = record { timestamp = "20260101000000"; table_fqns = "s.a" ∷ "s.b" ∷ [] } ∷ []

old_plan_covers :
    (f : String)
    → contains f ("s.a" ∷ "s.b" ∷ []) ≡ true
    → is_unchanged ao_before ao_now f ≡ true
    → count f (plan_tables old_plan) ≡ 1
old_plan_covers f h u = elim (Bool-cases ("s.a" == f)) [
  | inl e ↦ subst (λ z. count z (plan_tables old_plan) ≡ 1) (==_sound "s.a" f e) refl
  | inr e ↦ ground (arith, h, e)
]

incremental_plan_complete_example :
    count "s.b" (
      plan_tables (
        populate_restore_plan "20260102000000"
          (filter_tables_for_incremental ao_before ao_now ("s.a" ∷ "s.b" ∷ []))
          old_plan
          ("s.a" ∷ "s.b" ∷ [])))
    ≡ 1
incremental_plan_complete_example =
    incremental_plan_complete ao_before ao_now "20260102000000" old_plan ("s.a" ∷ "s.b" ∷ [])
      (refl, (refl, tt)) old_plan_covers "s.b"

count-populate_restore_plan_example :
    count "s.a" (
      plan_tables
        (populate_restore_plan "20260102000000" ("s.b" ∷ []) old_plan ("s.a" ∷ "s.b" ∷ [])))
    ≡ 1
count-populate_restore_plan_example =
    count-populate_restore_plan "20260102000000" ("s.b" ∷ []) old_plan ("s.a" ∷ "s.b" ∷ []) "s.a"
