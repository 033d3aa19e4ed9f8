-- ===== src/Tests/OfCohorts.antt =====
-- The theorems on cohorts and cycles at concrete inputs.
use gpbackup.Base.{
  ℕ, ◌≡◌, refl, Bool, true, false, not, ◌&&◌, List, [], ◌∷◌, arith, ◌==◌, nat_comparable,
  string_comparable, ltb, ltb→lt, ◌∙◌, ◌||◌, ◌+◌, ◌≤◌, Bool-cases, inl, inr, if◌then◌else◌,
}
use gpbackup.Base.Counting.{contains, IsDistinct}
use gpbackup.Backup.Objects.{UniqueId, unique_id_beq, unique_id_comparable}
use gpbackup.Backup.Sort.{Sortable, ids, DependencyMap, deps_of}
use gpbackup.Backup.Cycles.{pg_type_oid, pg_proc_oid, break_circular_dependencies}
use gpbackup.Backup.Cycles.Edges.{IsMap}
use gpbackup.Backup.Cycles.Broken.{break_circular_dependencies-edges}
use gpbackup.Backup.Cohorts.{assign_cohorts}
use gpbackup.Backup.Cohorts.Together.{IsClosed}
use gpbackup.Backup.Cohorts.Assignment.{assign_cohorts-together}
use gpbackup.Backup.Cohorts.Colours.{IsColouring}
use gpbackup.Backup.Cohorts.Remapping.{Ascends, SortsNumbers, assign_cohorts-IsColouring}

abbrev object_id : ℕ → UniqueId
object_id oid = record { class_id = 1259; oid = oid }

abbrev object_of : ℕ → Sortable
object_of oid = record { unique_id = object_id oid; fqn = "public.t" }

-- The third object depends on the first.
abbrev three_objects : List Sortable
three_objects = object_of 1 ∷ object_of 2 ∷ object_of 3 ∷ []

abbrev on_first : DependencyMap
on_first = (object_id 3, object_id 1 ∷ []) ∷ []

abbrev as_they_are : List ℕ → List ℕ
as_they_are numbers = numbers

three-IsDistinct : IsDistinct (ids three_objects)
unfolding unique_id_beq
three-IsDistinct = (refl, (refl, (refl, tt)))

three-IsClosed : IsClosed on_first (ids three_objects)
unfolding IsClosed unique_id_beq
three-IsClosed id d known dep = ground (arith, known, dep)

assign_cohorts-together_example :
    assign_cohorts as_they_are three_objects on_first (object_id 1)
    ≡ assign_cohorts as_they_are three_objects on_first (object_id 3)
unfolding unique_id_beq
assign_cohorts-together_example =
    assign_cohorts-together as_they_are three_objects on_first (object_id 3) (object_id 1)
      three-IsDistinct (omega arith) three-IsClosed refl refl

-- The other object is alone, and the numbers have no gap.
second_alone : assign_cohorts as_they_are three_objects on_first (object_id 2) ≡ 2
unfolding assign_cohorts unique_id_beq
second_alone = refl

abbrev in_out : UniqueId
in_out = record { class_id = 1255; oid = 1 }

abbrev base_type : UniqueId
base_type = record { class_id = 1247; oid = 2 }

-- A type and its input function, which depend on each other.
abbrev cycle : DependencyMap
cycle = (base_type, in_out ∷ []) ∷ (in_out, base_type ∷ []) ∷ []

set_at : (is_type is_function : Bool) → List UniqueId
set_at true is_function = in_out ∷ []
set_at false true = base_type ∷ []
set_at false false = []

set_at-IsDistinct : (b c : Bool) → IsDistinct (set_at b c)
unfolding set_at
set_at-IsDistinct true c = (refl, tt)
set_at-IsDistinct false true = (refl, tt)
set_at-IsDistinct false false = tt

deps_of-cycle : (id : UniqueId) → deps_of cycle id ≡ set_at (base_type == id) (in_out == id)
unfolding set_at
deps_of-cycle id = ground arith

cycle-IsMap : IsMap cycle
unfolding IsMap unique_id_beq
cycle-IsMap = (
  (refl, (refl, tt)),
  λ id. rw (deps_of-cycle id) (set_at-IsDistinct (base_type == id) (in_out == id)),
)

break_circular_dependencies-edges_example :
    contains base_type (deps_of (break_circular_dependencies cycle) in_out) ≡ (
      contains base_type (deps_of cycle in_out)
      && not (
          base_type.class_id == pg_type_oid
          && (in_out.class_id == pg_proc_oid && contains in_out (deps_of cycle base_type))))
break_circular_dependencies-edges_example =
    break_circular_dependencies-edges cycle in_out base_type cycle-IsMap

-- Insertion sort.
abbrev insert : ℕ → List ℕ → List ℕ
insert k [] = k ∷ []
insert k (x ∷ xs) = let rest = insert k xs in if ltb k x then k ∷ x ∷ xs else x ∷ rest

abbrev insertion_sort : List ℕ → List ℕ
insertion_sort [] = []
insertion_sort (x ∷ xs) = insert x (insertion_sort xs)

contains-insert : (j k : ℕ) (xs : List ℕ) → contains j (insert k xs) ≡ (k == j || contains j xs)
contains-insert j k [] = ground arith
contains-insert j k (x ∷ xs) = ground (arith, contains-insert j k xs)

insert-Ascends :
    (from k : ℕ) (xs : List ℕ)
    → from ≤ k
    → contains k xs ≡ false
    → Ascends from xs
    → Ascends from (insert k xs)
unfolding Ascends
insert-Ascends from k [] above new rises = (above, tt)
insert-Ascends from k (x ∷ xs) above new (first, rises) = elim (Bool-cases (ltb k x)) [
  | inl lower ↦ rw lower (above, (omega (arith, ltb→lt k x lower), rises))
  | inr higher ↦
      let next : x + 1 ≤ k = ground (arith, higher, new) in
      rw higher (first, insert-Ascends (x + 1) k xs next (ground (arith, new)) rises)
]

insertion_sort-SortsNumbers : SortsNumbers insertion_sort
unfolding SortsNumbers Ascends
insertion_sort-SortsNumbers [] distinct = (tt, λ k. refl)
insertion_sort-SortsNumbers (x ∷ xs) (new, distinct) =
    let (rises, same) = insertion_sort-SortsNumbers xs distinct in
    (
      insert-Ascends 0 x (insertion_sort xs) (omega arith) (same x ∙ new) rises,
      λ k. contains-insert k x (insertion_sort xs) ∙ ground (arith, same k),
    )

-- The second object has a colour of its own.
abbrev colour_of : UniqueId → ℕ
colour_of id = if id.oid == 2 then 7 else 5

colour_of-IsColouring : IsColouring on_first (ids three_objects) colour_of
unfolding IsColouring unique_id_beq
colour_of-IsColouring id d known dep = ground (arith, known, dep)

assign_cohorts-IsColouring_example : colour_of (object_id 1) ≡ colour_of (object_id 3)
unfolding unique_id_beq
assign_cohorts-IsColouring_example =
    assign_cohorts-IsColouring insertion_sort three_objects on_first colour_of (object_id 1)
      (object_id 3) insertion_sort-SortsNumbers three-IsDistinct (omega arith) three-IsClosed
      colour_of-IsColouring refl refl
      (assign_cohorts-together insertion_sort three_objects on_first (object_id 3) (object_id 1)
        three-IsDistinct (omega arith) three-IsClosed refl refl)
