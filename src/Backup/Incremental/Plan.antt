-- ===== src/Backup/Incremental/Plan.antt =====
-- backup/incremental.go: in which entries of the restore plan a table stands.
use gpbackup.Base.{
  ◌+◌, String, ◌≡◌, refl, sym, ap, ◌∙◌, true, not, ◌&&◌, List, [], ◌∷◌, ◌++◌, arith, if◌then◌else◌,
  nat_comparable, string_comparable, filter,
}
use gpbackup.Base.Counting.{
  count-filter, count-distinct, contains, count, IsDistinct, count-append, contains→count,
  not-contains→count,
}
use gpbackup.Base.Maps.{GoMap}
use mathlib.Core.List.{append_assoc}
use gpbackup.Toc.{AoEntry}
use gpbackup.Backup.Incremental.{
  is_unchanged, filter_tables_for_incremental, RestorePlanEntry, keeps_table, prune_plan,
  populate_restore_plan,
}

-- All the tables that a plan names, entry by entry.
abbrev pub plan_tables : List RestorePlanEntry → List String
plan_tables [] = []
plan_tables (entry ∷ plan) = entry.table_fqns ++ plan_tables plan

plan_tables-append :
    (xs ys : List RestorePlanEntry) → plan_tables (xs ++ ys) ≡ plan_tables xs ++ plan_tables ys
plan_tables-append [] ys = refl
plan_tables-append (x ∷ xs) ys =
    ap (◌++◌ x.table_fqns) (plan_tables-append xs ys)
    ∙ sym (append_assoc x.table_fqns (plan_tables xs) (plan_tables ys))

count-prune_plan :
    (changed all : List String) (plan : List RestorePlanEntry) (f : String)
    → count f (plan_tables (prune_plan changed all plan))
      ≡ (if keeps_table changed all f then count f (plan_tables plan) else 0)
unfolding prune_plan
count-prune_plan changed all [] f = ground arith
count-prune_plan changed all (entry ∷ plan) f = ground (
  arith,
  count-filter (keeps_table changed all) f entry.table_fqns,
  count-prune_plan changed all plan f,
  count-append f (filter (keeps_table changed all) entry.table_fqns)
      (plan_tables (prune_plan changed all plan)),
  count-append f entry.table_fqns (plan_tables plan),
)

-- The plan names a table as often as the current backup dumps it, and as often as the earlier
-- plan named it if the table still exists and is not dumped now.
pub count-populate_restore_plan :
    (timestamp : String) (changed : List String) (plan : List RestorePlanEntry) (all : List String)
    (f : String)
    → count f (plan_tables (populate_restore_plan timestamp changed plan all))
      ≡ (if contains f all && not (contains f changed) then count f (plan_tables plan) else 0)
        + count f changed
unfolding populate_restore_plan keeps_table
count-populate_restore_plan timestamp changed plan all f =
    ap (count f) (plan_tables-append (prune_plan changed all plan) _)
    ∙ ground (
      arith,
      count-append f (plan_tables (prune_plan changed all plan)) (changed ++ []),
      count-append f changed [],
      count-prune_plan changed all plan f,
    )

-- After an incremental backup of distinct tables the plan names every table of the database
-- exactly once and no other table, provided that the earlier plan names exactly once each table
-- that the backup leaves out as unchanged.
pub incremental_plan_complete :
    (last current : GoMap String AoEntry) (timestamp : String) (plan : List RestorePlanEntry)
    (tables : List String)
    → IsDistinct tables
    → ((f : String)
        → contains f tables ≡ true
        → is_unchanged last current f ≡ true
        → count f (plan_tables plan) ≡ 1)
    → (f : String)
    → count f (
        plan_tables (
          populate_restore_plan timestamp
            (filter_tables_for_incremental last current tables)
            plan
            tables))
      ≡ (if contains f tables then 1 else 0)
unfolding filter_tables_for_incremental keeps_table
incremental_plan_complete last current timestamp plan tables d covered f =
    let dumped = filter_tables_for_incremental last current tables in
    count-populate_restore_plan timestamp dumped plan tables f
    ∙ ground (
      arith,
      count-filter (λ t. not (is_unchanged last current t)) f tables,
      count-distinct f tables d,
      contains→count f dumped,
      not-contains→count f dumped,
      covered f,
    )
