-- ===== src/Backup/Incremental.antt =====
-- backup/incremental.go: which tables an incremental backup dumps, and the restore plan that says
-- which backup holds the data of each table.
pub mod Plan
pub mod Matching
use gpbackup.Base.{
  ℕ, zero, suc, ◌+◌, ◌-◌, ◌*◌, ◌/◌, ◌%◌, ◌≤◌, ◌<◌, String, ◌<>◌, len, slice, ◌≡◌, refl, sym, ap,
  subst, ◌∙◌, ◌≢◌, ◌↔◌, ◌⊎◌, inl, inr, Bool, true, false, not, ◌&&◌, ◌||◌, Option, none, some, List,
  [], ◌∷◌, ◌++◌, map, arith, ltb, leb, nat_beq, if◌then◌else◌, nat_beq_iff, ltb→lt, lt→ltb, leb→le,
  Bool-cases, Option-cases, &&_left, &&_right, Comparable, ◌==◌, nat_comparable, string_comparable,
  ==_refl, ==_sound, ==_sym, length, is_empty, get_elem?, drop, filter, All, length-append,
  filter-append, All-append, All-map,
}
use gpbackup.Base.Maps.{GoMap, keys, lookup, put, delete, lookup-put, lookup-none}
use gpbackup.Base.Counting.{
  contains, count, remove, IsDistinct, Included, count-append, contains-append, contains→count,
  count→contains, not-contains→count, length-le_of_Included, Included-of_length,
}
use gpbackup.Base.Words.{int_comparable, pos}
use gpbackup.Utils.FilterSet.{new_include_set, equals}
use gpbackup.Toc.{AoEntry}

-- `IncrementalMetadata.AO`; a missing key reads as the zero entry.
abbrev pub ao_entry : String → GoMap String AoEntry → AoEntry
ao_entry fqn ao = elim (lookup fqn ao) [
  | some entry ↦ entry
  | none ↦ record { modcount = pos 0; last_ddl_timestamp = "" }
]

unfoldable pub is_unchanged : GoMap String AoEntry → GoMap String AoEntry → String → Bool
is_unchanged last current fqn = elim (lookup fqn current) [
  | none ↦ false
  | some entry ↦
      let previous = ao_entry fqn last in
      not (
        not (previous.modcount == entry.modcount)
        || not (previous.last_ddl_timestamp == entry.last_ddl_timestamp))
]

-- Tables are named by their FQN, which is all that the function reads of them.
unfoldable pub filter_tables_for_incremental :
    GoMap String AoEntry → GoMap String AoEntry → List String → List String
unfolding is_unchanged
filter_tables_for_incremental last current tables =
    filter (λ fqn. not (is_unchanged last current fqn)) tables

pub record RestorePlanEntry : Type 0 where
  pub timestamp : String
  pub table_fqns : List String

-- The table names that stay in an entry of an earlier timestamp.
unfoldable pub keeps_table : List String → List String → String → Bool
keeps_table changed all fqn = not (contains fqn changed) && contains fqn all

prune_plan : List String → List String → List RestorePlanEntry → List RestorePlanEntry
unfolding keeps_table
prune_plan changed all [] = []
prune_plan changed all (entry ∷ plan) =
    record entry { table_fqns = filter (keeps_table changed all) entry.table_fqns }
    ∷ prune_plan changed all plan

-- `timestamp` is that of the current backup.
unfoldable pub populate_restore_plan :
    String → List String → List RestorePlanEntry → List String → List RestorePlanEntry
unfolding prune_plan
populate_restore_plan timestamp changed_tables plan all_tables =
    prune_plan changed_tables all_tables plan
    ++ record { timestamp = timestamp; table_fqns = changed_tables } ∷ []
