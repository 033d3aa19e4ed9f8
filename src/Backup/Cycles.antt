-- ===== src/Backup/Cycles.antt =====
-- backup/dependencies.go: breakCircularDependencies.
pub mod Edges
pub mod Broken
use gpbackup.Base.{
  take, ℕ, zero, suc, ◌+◌, ◌-◌, ◌*◌, ◌/◌, ◌%◌, ◌≤◌, ◌<◌, String, ◌<>◌, len, slice, ◌≡◌, refl, sym,
  ap, subst, ◌∙◌, ◌≢◌, ◌↔◌, ◌⊎◌, inl, inr, Bool, true, false, not, ◌&&◌, ◌||◌, Option, none, some,
  List, [], ◌∷◌, ◌++◌, map, arith, ltb, leb, nat_beq, if◌then◌else◌, nat_beq_iff, ltb→lt, lt→ltb,
  leb→le, Bool-cases, Option-cases, &&_left, &&_right, Comparable, ◌==◌, nat_comparable,
  string_comparable, ==_refl, ==_sound, ==_sym, length, is_empty, get_elem?, drop, filter, All,
  length-append, filter-append, All-append, All-map,
}
use gpbackup.Base.Maps.{GoMap, keys, lookup, put, delete, lookup-put, lookup-none}
use gpbackup.Base.Counting.{contains, remove}
use gpbackup.Backup.Objects.{UniqueId, unique_id_comparable}
use gpbackup.Backup.Sort.{DependencyMap, deps_of}

abbrev pub pg_type_oid : ℕ
pg_type_oid = 1247

abbrev pub pg_proc_oid : ℕ
pg_proc_oid = 1255

-- The two deletions, for a type `entry` that depends on the function `dep`.
unfoldable pub break_pair : UniqueId → UniqueId → DependencyMap → DependencyMap
break_pair entry dep dependencies = elim (lookup dep dependencies) [
  | none ↦ dependencies
  | some deps ↦
      if contains entry deps
      then (if length deps == 1
          then delete dep dependencies
          else put dep (remove entry deps) dependencies)
      else dependencies
]

-- The inner loop, over the set of one entry.
unfoldable pub break_entry : UniqueId → List UniqueId → DependencyMap → DependencyMap
unfolding break_pair
break_entry entry [] dependencies = dependencies
break_entry entry (dep ∷ deps) dependencies = break_entry entry deps (
    if entry.class_id == pg_type_oid && dep.class_id == pg_proc_oid
    then break_pair entry dep dependencies
    else dependencies)

-- The outer loop. Only entries of functions change, and they are passed over, so that it does not
-- matter whether `range` still meets them.
unfoldable pub break_entries : DependencyMap → DependencyMap → DependencyMap
unfolding break_entry
break_entries [] dependencies = dependencies
break_entries ((entry, deps) ∷ later) dependencies =
    break_entries later (break_entry entry deps dependencies)

unfoldable pub break_circular_dependencies : DependencyMap → DependencyMap
unfolding break_entries
break_circular_dependencies dependencies = break_entries dependencies dependencies
