-- ===== src/Backup/Sort.antt =====
-- backup/dependencies.go: the objects of the backup in an order in which they can be created.
pub mod Relax
pub mod Pending
pub mod Invariant
pub mod Order
pub mod Result
use gpbackup.Base.{
  ℕ, zero, suc, ◌+◌, ◌-◌, ◌*◌, ◌/◌, ◌%◌, ◌≤◌, ◌<◌, String, ◌<>◌, len, slice, ◌≡◌, refl, sym, ap,
  subst, ◌∙◌, ◌≢◌, ◌↔◌, ◌⊎◌, inl, inr, Bool, true, false, not, ◌&&◌, ◌||◌, Option, none, some, List,
  [], ◌∷◌, ◌++◌, map, arith, ltb, leb, nat_beq, if◌then◌else◌, nat_beq_iff, ltb→lt, lt→ltb, leb→le,
  Bool-cases, Option-cases, &&_left, &&_right, Comparable, ◌==◌, nat_comparable, string_comparable,
  ==_refl, ==_sound, ==_sym, length, is_empty, get_elem?, drop, filter, All, length-append,
  filter-append, All-append, All-map,
}
use gpbackup.Base.Counting.{
  contains, count, remove, IsDistinct, Included, count-append, contains-append, contains→count,
  count→contains, not-contains→count, length-le_of_Included, Included-of_length,
}
use gpbackup.Base.Maps.{GoMap, keys, lookup, put, delete, lookup-put, lookup-none}
use gpbackup.Base.Results.{Outcome, ok, fatal, ◌>>=◌, ◌>>◌, fatal_if, >>-eq-ok}
use gpbackup.Base.Words.{u32, ℤ, pos, negsuc, decrement, is_zero}
use gpbackup.Backup.Objects.{UniqueId, unique_id_comparable}

pub record Sortable : Type 0 where
  pub unique_id : UniqueId
  pub fqn : String

abbrev pub ids : List Sortable → List UniqueId
ids [] = []
ids (item ∷ items) = item.unique_id ∷ ids items

-- A set of ids per object, the keys of a `map[UniqueID]bool`.
abbrev pub DependencyMap : Type 0
DependencyMap = GoMap UniqueId (List UniqueId)

abbrev pub deps_of : DependencyMap → UniqueId → List UniqueId
deps_of dependencies id = elim (lookup id dependencies) [ none ↦ [] | some deps ↦ deps ]

-- The first loop, for each of the maps and the queue that it fills. Maps of this function are
-- functions on the ids, which give the zero value where the map has no entry.
unfoldable pub initial_in_degrees : DependencyMap → List Sortable → UniqueId → ℤ
initial_in_degrees dependencies slice id =
    if contains id (ids slice) then pos (length (deps_of dependencies id)) else pos 0

unfoldable pub is_dependent_on : DependencyMap → List Sortable → UniqueId → List UniqueId
is_dependent_on dependencies [] dep = []
is_dependent_on dependencies (item ∷ slice) dep =
    let rest = is_dependent_on dependencies slice dep in
    if contains dep (deps_of dependencies item.unique_id) then item.unique_id ∷ rest else rest

-- The index of the last item with the id.
unfoldable pub dependency_indexes : ℕ → List Sortable → UniqueId → ℕ
dependency_indexes i [] id = 0
dependency_indexes i (item ∷ slice) id =
    let rest = dependency_indexes (i + 1) slice id in
    if contains id (ids slice) then rest else if item.unique_id == id then i else 0

unfoldable pub initial_queue : DependencyMap → List Sortable → List Sortable
initial_queue dependencies [] = []
initial_queue dependencies (item ∷ slice) =
    let rest = initial_queue dependencies slice in
    if is_empty (deps_of dependencies item.unique_id) then item ∷ rest else rest

abbrev pub set_at {ℓ} : {V : Type ℓ} → UniqueId → V → (UniqueId → V) → UniqueId → V
set_at k v m id = if k == id then v else m id

-- `append(nextTier, slice[dependencyIndexes[dep]])`; the index is in range for every `dep` that
-- the loop meets.
abbrev pub append_item : List Sortable → UniqueId → List Sortable → List Sortable
append_item slice dep next = elim (get_elem? slice (dependency_indexes 0 slice dep)) [
  | none ↦ next
  | some item ↦ next ++ item ∷ []
]

-- The inner loop over `isDependentOn[item.GetUniqueID()]`.
unfoldable pub relax :
    List Sortable → List UniqueId → (UniqueId → ℤ) → List Sortable → (UniqueId → ℤ) × List Sortable
unfolding dependency_indexes
relax slice [] in_degrees next_tier = (in_degrees, next_tier)
relax slice (dep ∷ deps) in_degrees next_tier =
    let degree = decrement (in_degrees dep) in
    relax slice deps (set_at dep degree in_degrees)
      (if is_zero degree then append_item slice dep next_tier else next_tier)

pub record SortState : Type 0 where
  pub in_degrees : UniqueId → ℤ
  pub queue : List Sortable
  pub sorted : List Sortable
  pub next_tier : List Sortable
  pub tier_count : ℕ
  pub tier_map : UniqueId → ℕ

-- One round of the loop on a queue that holds `item` and then `rest`.
unfoldable pub visit :
    DependencyMap → List Sortable → Sortable → List Sortable → SortState → SortState
unfolding relax is_dependent_on
visit dependencies slice item rest st =
    let (in_degrees, next_tier) =
      relax slice (is_dependent_on dependencies slice item.unique_id) st.in_degrees st.next_tier in
    record {
      in_degrees = in_degrees;
      queue = rest;
      sorted = st.sorted ++ item ∷ [];
      next_tier = next_tier;
      tier_count = st.tier_count;
      tier_map = set_at item.unique_id (st.tier_count % u32) st.tier_map;
    }

-- `goto STAGE2` with the next tier as the queue.
abbrev pub next_stage : SortState → SortState
next_stage st = record st { queue = st.next_tier; next_tier = []; tier_count = st.tier_count + 1 }

-- Rounds and stages, on fuel.
unfoldable pub stages : DependencyMap → List Sortable → ℕ → SortState → SortState
unfolding visit
stages dependencies slice zero st = st
stages dependencies slice (suc n) st = elim st.queue [
  | item ∷ rest ↦ stages dependencies slice n (visit dependencies slice item rest st)
  | [] ↦ elim st.next_tier [ [] ↦ st | item ∷ items ↦ stages dependencies slice n (next_stage st) ]
]

unfoldable pub initial_state : DependencyMap → List Sortable → SortState
unfolding initial_in_degrees initial_queue
initial_state dependencies slice = record {
  in_degrees = initial_in_degrees dependencies slice;
  queue = initial_queue dependencies slice;
  sorted = [];
  next_tier = [];
  tier_count = 1;
  tier_map = λ id. 0;
}

-- The tiers are the first numbers of the source's pairs; assignCohorts, which fills in the second
-- ones before the return, is left out. Two rounds per item are enough: one that visits it and one
-- that starts a stage.
unfoldable pub topological_sort :
    List Sortable → DependencyMap → Outcome (List Sortable × (UniqueId → ℕ))
unfolding stages initial_state
topological_sort slice dependencies =
    let end =
      stages dependencies slice (length slice + length slice + 1)
        (initial_state dependencies slice) in
    if length slice == length end.sorted
    then ok (end.sorted, end.tier_map)
    else fatal
        "Dependency resolution failed; see log file for details. This is a bug, please report."
