-- ===== src/Backup/Cohorts/Colours.antt =====
-- backup/dependencies.go: the loops of assignCohorts keep objects of different colours apart.
use gpbackup.Base.{
  ℕ, ◌+◌, ◌%◌, slice, ◌≡◌, refl, sym, ap, subst, ◌∙◌, inl, inr, true, List, [], ◌∷◌, arith,
  if◌then◌else◌, Bool-cases, ◌==◌, nat_comparable, string_comparable, ==_refl, ==_sound, ==_sym,
}
use gpbackup.Base.Counting.{contains}
use gpbackup.Base.Words.{u32}
use gpbackup.Backup.Objects.{UniqueId, unique_id_comparable}
use gpbackup.Backup.Sort.{Sortable, ids, DependencyMap, deps_of, is_dependent_on}
use gpbackup.Backup.Cohorts.{
  Cohorts, members, merge_cohorts, own_cohorts, merge_related, merge_item, merge_items,
}
use gpbackup.Backup.Cohorts.Relabelling.{Agree, members-put}
use gpbackup.Backup.Cohorts.Together.{
  IsMerge, Gathers, IsClosed, merge_cohorts-IsMerge, merge_related-Gathers, merge_item-Together,
  children_within,
}
use gpbackup.Backup.Cohorts.Separation.{Refines, IsFine, merge_cohorts-IsFine}

merge_related-IsFine :
    (colour : UniqueId → ℕ) (objects : List UniqueId) (id : UniqueId) (related : List UniqueId)
    (curr : ℕ) (c : Cohorts)
    → contains id objects ≡ true
    → ((r : UniqueId)
        → contains r related ≡ true
        → (contains r objects ≡ true) × (colour id ≡ colour r))
    → c.object_to_cohort id ≡ curr
    → Agree objects c
    → IsFine colour objects c
    → IsFine colour objects (merge_related related (curr, c)).1
unfolding merge_related IsMerge
merge_related-IsFine colour objects id [] curr c known within here agree refines = refines
merge_related-IsFine colour objects id (first ∷ later) curr c known within here agree refines =
    let first_in = within first (ground (arith, ==_refl first)) in
    let within_later : (r : UniqueId)
        → contains r later ≡ true
        → (contains r objects ≡ true) × (colour id ≡ colour r) =
      λ r h. within r (ground (arith, h)) in
    elim (Bool-cases (c.object_to_cohort first == curr)) [
      | inl same ↦
          rw (same, merge_related)
            (merge_related-IsFine colour objects id later curr c known within_later here agree
              refines)
      | inr other ↦
          let ne = ==_sym curr (c.object_to_cohort first) ∙ other in
          let (agrees, coarser, labels) =
            merge_cohorts-IsMerge objects curr (c.object_to_cohort first) c ne agree in
          let merged = merge_cohorts curr (c.object_to_cohort first) c in
          let refined =
            subst (λ k. IsFine colour objects (merge_cohorts k (c.object_to_cohort first) c).1) here
              (merge_cohorts-IsFine colour objects id first c
                (ap (λ k. k == c.object_to_cohort first) here ∙ ne) known first_in.0 first_in.1
                agree refines) in
          rw (other, merge_related)
            (merge_related-IsFine colour objects id later merged.0 merged.1 known within_later
              (labels id known (inl here)) agrees refined)
    ]

-- A colour for each object that is the same along every dependency.
unfoldable pub IsColouring : DependencyMap → List UniqueId → (UniqueId → ℕ) → Type 0
IsColouring dependencies objects colour =
    (id d : UniqueId)
    → contains id objects ≡ true
    → contains d (deps_of dependencies id) ≡ true
    → colour id ≡ colour d

children_depend :
    (dependencies : DependencyMap) (slice : List Sortable) (id child : UniqueId)
    → contains child (is_dependent_on dependencies slice id) ≡ true
    → contains id (deps_of dependencies child) ≡ true
unfolding is_dependent_on
children_depend dependencies [] id child h = ground arith
children_depend dependencies (item ∷ slice) id child h =
    elim (Bool-cases (item.unique_id == child)) [
      | inr other ↦ ground (arith, h, other, children_depend dependencies slice id child)
      | inl same ↦ ground (
        arith,
        h,
        same,
        children_depend dependencies slice id child,
        subst
            (λ z.
              contains id (deps_of dependencies item.unique_id)
              ≡ contains id (deps_of dependencies z))
            (==_sound item.unique_id child same) refl,
      )
    ]

merge_item-IsFine :
    (colour : UniqueId → ℕ) (dependencies : DependencyMap) (slice : List Sortable) (item : Sortable)
    (c : Cohorts)
    → IsClosed dependencies (ids slice)
    → IsColouring dependencies (ids slice) colour
    → contains item.unique_id (ids slice) ≡ true
    → Agree (ids slice) c
    → IsFine colour (ids slice) c
    → IsFine colour (ids slice) (merge_item dependencies slice item c)
unfolding merge_item IsClosed IsColouring Gathers
merge_item-IsFine colour dependencies slice item c closed colouring known agree refines =
    let id = item.unique_id in
    let parents = deps_of dependencies item.unique_id in
    let up =
      merge_related (deps_of dependencies item.unique_id) (c.object_to_cohort item.unique_id, c) in
    let (agrees, coarser, label, gathered) =
      merge_related-Gathers (ids slice) item.unique_id (deps_of dependencies item.unique_id)
        (c.object_to_cohort item.unique_id) c known (λ d h. closed item.unique_id d known h) refl
        agree in
    let refined =
      merge_related-IsFine colour (ids slice) item.unique_id (deps_of dependencies item.unique_id)
        (c.object_to_cohort item.unique_id) c known
        (λ d h. (closed item.unique_id d known h, colouring item.unique_id d known h)) refl agree
        refines in
    merge_related-IsFine colour (ids slice) item.unique_id
      (is_dependent_on dependencies slice item.unique_id) up.0 up.1 known
      (λ r h.
        let within = children_within dependencies slice item.unique_id r h in
        (
          within,
          sym (
              colouring r item.unique_id within
                (children_depend dependencies slice item.unique_id r h)),
        ))
      label agrees refined

pub merge_items-IsFine :
    (colour : UniqueId → ℕ) (dependencies : DependencyMap) (slice items : List Sortable)
    (c : Cohorts)
    → IsClosed dependencies (ids slice)
    → IsColouring dependencies (ids slice) colour
    → ((id : UniqueId) → contains id (ids items) ≡ true → contains id (ids slice) ≡ true)
    → Agree (ids slice) c
    → IsFine colour (ids slice) c
    → IsFine colour (ids slice) (merge_items dependencies slice items c)
unfolding merge_items
merge_items-IsFine colour dependencies slice [] c closed colouring within agree refines = refines
merge_items-IsFine colour dependencies slice (item ∷ items) c closed colouring within agree
      refines =
    let known = within item.unique_id (ground (arith, ==_refl item.unique_id)) in
    let (agrees, coarser, together) =
      merge_item-Together dependencies slice item c closed known agree in
    merge_items-IsFine colour dependencies slice items (merge_item dependencies slice item c) closed
      colouring (λ id h. within id (ground (arith, h))) agrees
      (merge_item-IsFine colour dependencies slice item c closed colouring known agree refines)

-- At the start each object is alone in its cohort.
unfoldable pub Alone : Cohorts → Type 0
Alone c =
    (k : ℕ) (a b : UniqueId)
    → contains a (members k c.cohort_numbers) ≡ true
    → contains b (members k c.cohort_numbers) ≡ true
    → a ≡ b

pub own_cohorts-Alone :
    (i : ℕ) (slice : List Sortable) (c : Cohorts) → Alone c → Alone (own_cohorts i slice c)
unfolding own_cohorts Alone
own_cohorts-Alone i [] c alone = alone
own_cohorts-Alone i (item ∷ slice) c alone = own_cohorts-Alone (i + 1) slice _ (λ k a b in_a in_b.
    put_alone k a b
      (subst (λ m. contains a m ≡ true)
        (members-put k ((i + 1) % u32) (item.unique_id ∷ []) c.cohort_numbers) in_a)
      (subst (λ m. contains b m ≡ true)
        (members-put k ((i + 1) % u32) (item.unique_id ∷ []) c.cohort_numbers) in_b))
  where
    put_alone :
        (k : ℕ) (a b : UniqueId)
        → contains a
            (if (i + 1) % u32 == k then item.unique_id ∷ [] else members k c.cohort_numbers)
          ≡ true
        → contains b
            (if (i + 1) % u32 == k then item.unique_id ∷ [] else members k c.cohort_numbers)
          ≡ true
        → a ≡ b
    put_alone k a b in_a in_b = elim (Bool-cases ((i + 1) % u32 == k)) [
      | inr other ↦ alone k a b (ground (arith, in_a, other)) (ground (arith, in_b, other))
      | inl same ↦
          sym (==_sound item.unique_id a (ground (arith, in_a, same)))
          ∙ ==_sound item.unique_id b (ground (arith, in_b, same))
    ]

pub own_cohorts-Refines :
    (colour : UniqueId → ℕ) (objects : List UniqueId) (c : Cohorts)
    → Agree objects c
    → Alone c
    → Refines colour objects c
unfolding Agree Alone Refines
own_cohorts-Refines colour objects c (a, b, d) alone x y in_x in_y same =
    ap colour (alone (c.object_to_cohort x) x y (a x in_x) (rw same (a y in_y)))
