-- ===== src/Backup/Cohorts.antt =====
-- backup/dependencies.go: mergeCohorts and assignCohorts, which number the sets of objects that
-- one connection restores. `sort.SliceStable` is a parameter.
pub mod Relabelling
pub mod Together
pub mod Assignment
pub mod Separation
pub mod Colours
pub mod Apart
pub mod Remapping
use gpbackup.Base.{
  take, ℕ, zero, suc, ◌+◌, ◌-◌, ◌*◌, ◌/◌, ◌%◌, ◌≤◌, ◌<◌, String, ◌<>◌, len, slice, ◌≡◌, refl, sym,
  ap, subst, ◌∙◌, ◌≢◌, ◌↔◌, ◌⊎◌, inl, inr, Bool, true, false, not, ◌&&◌, ◌||◌, Option, none, some,
  List, [], ◌∷◌, ◌++◌, map, arith, ltb, leb, nat_beq, if◌then◌else◌, nat_beq_iff, ltb→lt, lt→ltb,
  leb→le, Bool-cases, Option-cases, &&_left, &&_right, Comparable, ◌==◌, nat_comparable,
  string_comparable, ==_refl, ==_sound, ==_sym, length, is_empty, get_elem?, drop, filter, All,
  length-append, filter-append, All-append, All-map,
}
use gpbackup.Base.Maps.{GoMap, keys, lookup, put, delete, lookup-put, lookup-none}
use gpbackup.Base.Counting.{contains}
use gpbackup.Base.Words.{u32}
use gpbackup.Backup.Objects.{UniqueId, unique_id_comparable}
use gpbackup.Backup.Sort.{Sortable, ids, DependencyMap, deps_of, is_dependent_on, set_at}

-- `objectToCohortMap`, which is zero for an id that it does not have, and `cohortNumberMap` with
-- the keys of its inner maps.
pub record Cohorts : Type 0 where
  pub object_to_cohort : UniqueId → ℕ
  pub cohort_numbers : GoMap ℕ (List UniqueId)

-- `set[id] = true`
abbrev pub add_id : UniqueId → List UniqueId → List UniqueId
add_id id objects = if contains id objects then objects else objects ++ id ∷ []

abbrev pub members : ℕ → GoMap ℕ (List UniqueId) → List UniqueId
members cohort numbers = elim (lookup cohort numbers) [ none ↦ [] | some objects ↦ objects ]

-- The loop over the objects of the higher cohort.
unfoldable pub move_objects : ℕ → List UniqueId → Cohorts → Cohorts
move_objects lower [] c = c
move_objects lower (object ∷ objects) c = move_objects lower objects (record {
  object_to_cohort = set_at object lower c.object_to_cohort;
  cohort_numbers = put lower (add_id object (members lower c.cohort_numbers)) c.cohort_numbers;
})

-- `if !lowerCohortExists { cohortNumberMap[lowerCohort] = make(...) }`
unfoldable pub ensure_cohort : ℕ → Cohorts → Cohorts
ensure_cohort lower c = elim (lookup lower c.cohort_numbers) [
  | none ↦ record c { cohort_numbers = put lower [] c.cohort_numbers }
  | some objects ↦ c
]

unfoldable pub merge_into : (lower higher : ℕ) → Cohorts → Cohorts
unfolding move_objects ensure_cohort
merge_into lower higher c = elim (lookup higher c.cohort_numbers) [
  | none ↦ ensure_cohort lower c
  | some objects ↦
      let moved = move_objects lower objects (ensure_cohort lower c) in
      record moved { cohort_numbers = delete higher moved.cohort_numbers }
]

unfoldable pub merge_cohorts : (first second : ℕ) → Cohorts → ℕ × Cohorts
unfolding merge_into
merge_cohorts first second c =
    if ltb first second
    then (first, merge_into first second c)
    else (second, merge_into second first c)

-- The first loop; `i` counts the items before.
unfoldable pub own_cohorts : ℕ → List Sortable → Cohorts → Cohorts
own_cohorts i [] c = c
own_cohorts i (item ∷ slice) c = own_cohorts (i + 1) slice (record {
  object_to_cohort = set_at item.unique_id ((i + 1) % u32) c.object_to_cohort;
  cohort_numbers = put ((i + 1) % u32) (item.unique_id ∷ []) c.cohort_numbers;
})

-- The loops over the parents and over the children; the number is `currCohort`.
unfoldable pub merge_related : List UniqueId → ℕ × Cohorts → ℕ × Cohorts
unfolding merge_cohorts
merge_related [] state = state
merge_related (related ∷ later) (curr, c) =
    let cohort = c.object_to_cohort related in
    merge_related later (if cohort == curr then (curr, c) else merge_cohorts curr cohort c)

unfoldable pub merge_item : DependencyMap → List Sortable → Sortable → Cohorts → Cohorts
unfolding merge_related is_dependent_on
merge_item dependencies slice item c =
    (merge_related (is_dependent_on dependencies slice item.unique_id) (
      merge_related (deps_of dependencies item.unique_id) (c.object_to_cohort item.unique_id, c))).1

unfoldable pub merge_items : DependencyMap → (slice items : List Sortable) → Cohorts → Cohorts
unfolding merge_item
merge_items dependencies slice [] c = c
merge_items dependencies slice (item ∷ items) c =
    merge_items dependencies slice items (merge_item dependencies slice item c)

-- The remapping to numbers without gaps; `expected` is `expectedCohort`.
unfoldable pub remap_cohorts : ℕ → List ℕ → Cohorts → Cohorts
unfolding merge_cohorts
remap_cohorts expected [] c = c
remap_cohorts expected (actual ∷ cohorts) c =
    remap_cohorts ((expected + 1) % u32) cohorts
      (if expected == actual then c else (merge_cohorts expected actual c).1)

-- The two maps when they are made.
abbrev pub no_cohorts : Cohorts
no_cohorts = record { object_to_cohort = λ id. 0; cohort_numbers = [] }

-- The second numbers of the tiers.
unfoldable pub assign_cohorts : (List ℕ → List ℕ) → List Sortable → DependencyMap → UniqueId → ℕ
unfolding own_cohorts merge_items remap_cohorts
assign_cohorts slice_stable slice dependencies =
    let merged = merge_items dependencies slice slice (own_cohorts 0 slice no_cohorts) in
    (remap_cohorts 1 (slice_stable (keys merged.cohort_numbers)) merged).object_to_cohort
