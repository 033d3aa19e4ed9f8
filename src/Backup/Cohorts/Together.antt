-- ===== src/Backup/Cohorts/Together.antt =====
-- backup/dependencies.go: the loop of assignCohorts over one object.
use gpbackup.Base.{
  ℕ, slice, ◌≡◌, refl, sym, ap, ◌∙◌, ◌⊎◌, inl, inr, true, false, List, [], ◌∷◌, arith, ltb,
  Bool-cases, ◌==◌, nat_comparable, string_comparable, ==_refl, ==_sound, ==_sym,
}
use gpbackup.Base.Counting.{contains}
use gpbackup.Backup.Objects.{UniqueId, unique_id_comparable}
use gpbackup.Backup.Sort.{Sortable, ids, DependencyMap, deps_of, is_dependent_on}
use gpbackup.Backup.Cohorts.{Cohorts, merge_cohorts, merge_related, merge_item}
use gpbackup.Backup.Cohorts.Relabelling.{Agree, Relabels, merge_into-Relabels}

-- Objects of one cohort stay together.
unfoldable pub Coarsens : List UniqueId → (before after : Cohorts) → Type 0
Coarsens objects before after =
    (a b : UniqueId)
    → contains a objects ≡ true
    → contains b objects ≡ true
    → before.object_to_cohort a ≡ before.object_to_cohort b
    → after.object_to_cohort a ≡ after.object_to_cohort b

-- A merge of two numbers: both become the number that is returned.
unfoldable pub IsMerge : List UniqueId → (first second : ℕ) → Cohorts → ℕ × Cohorts → Type 0
IsMerge objects first second before (number, after) =
    Agree objects after
    × Coarsens objects before after
    × ((id : UniqueId)
        → contains id objects ≡ true
        → (before.object_to_cohort id ≡ first) ⊎ (before.object_to_cohort id ≡ second)
        → after.object_to_cohort id ≡ number)

pub merge_cohorts-IsMerge :
    (objects : List UniqueId) (first second : ℕ) (c : Cohorts)
    → (first == second) ≡ false
    → Agree objects c
    → IsMerge objects first second c (merge_cohorts first second c)
unfolding merge_cohorts IsMerge Coarsens Relabels
merge_cohorts-IsMerge objects first second c ne agree = elim (Bool-cases (ltb first second)) [
  | inl lower ↦
      let (agrees, labels) = merge_into-Relabels objects first second c ne agree in
      rw (lower, merge_cohorts)
        (
          agrees,
          λ a b in_a in_b same. rw (labels a in_a, labels b in_b, same) refl,
          λ id known which. labels id known ∙ ground (arith, which, ne),
        )
  | inr higher ↦
      let (agrees, labels) =
        merge_into-Relabels objects second first c (==_sym second first ∙ ne) agree in
      rw (higher, merge_cohorts)
        (
          agrees,
          λ a b in_a in_b same. rw (labels a in_a, labels b in_b, same) refl,
          λ id known which. labels id known ∙ ground (arith, which, ne),
        )
]

-- The loop over the parents or the children of an item.
unfoldable pub Gathers : List UniqueId → UniqueId → List UniqueId → Cohorts → ℕ × Cohorts → Type 0
Gathers objects id related before (curr, after) =
    Agree objects after
    × Coarsens objects before after
    × (after.object_to_cohort id ≡ curr)
    × ((r : UniqueId) → contains r related ≡ true → after.object_to_cohort r ≡ curr)

Gathers-cons :
    (objects : List UniqueId) (id first : UniqueId) (later : List UniqueId) (c merged : Cohorts)
    (number : ℕ) (result : ℕ × Cohorts)
    → contains id objects ≡ true
    → contains first objects ≡ true
    → Coarsens objects c merged
    → merged.object_to_cohort id ≡ number
    → merged.object_to_cohort first ≡ number
    → Gathers objects id later merged result
    → Gathers objects id (first ∷ later) c result
unfolding Gathers Coarsens
Gathers-cons objects id first later c merged number (curr, after) known first_in coarser label
      first_label (agrees, coarser_yet, end, gathered) =
    (
      agrees,
      λ a b in_a in_b same. coarser_yet a b in_a in_b (coarser a b in_a in_b same),
      end,
      λ r h. elim (Bool-cases (first == r)) [
        | inl is_first ↦
            ap after.object_to_cohort (sym (==_sound first r is_first))
            ∙ (coarser_yet first id first_in known (first_label ∙ sym label) ∙ end)
        | inr is_later ↦ gathered r (ground (arith, h, is_later))
      ],
    )

pub merge_related-Gathers :
    (objects : List UniqueId) (id : UniqueId) (related : List UniqueId) (curr : ℕ) (c : Cohorts)
    → contains id objects ≡ true
    → ((r : UniqueId) → contains r related ≡ true → contains r objects ≡ true)
    → c.object_to_cohort id ≡ curr
    → Agree objects c
    → Gathers objects id related c (merge_related related (curr, c))
unfolding merge_related Gathers Coarsens IsMerge
merge_related-Gathers objects id [] curr c known within here agree =
    (agree, λ a b in_a in_b same. same, here, λ r h. ground arith)
merge_related-Gathers objects id (first ∷ later) curr c known within here agree =
    let first_in = within first (ground (arith, ==_refl first)) in
    let within_later : (r : UniqueId) → contains r later ≡ true → contains r objects ≡ true =
      λ r h. within r (ground (arith, h)) in
    elim (Bool-cases (c.object_to_cohort first == curr)) [
      | inl same ↦
          rw (same, merge_related)
            (Gathers-cons objects id first later c c curr (merge_related later (curr, c)) known
              first_in (λ a b in_a in_b eq. eq) here (==_sound (c.object_to_cohort first) curr same)
              (merge_related-Gathers objects id later curr c known within_later here agree))
      | inr other ↦
          let (agrees, coarser, labels) =
            merge_cohorts-IsMerge objects curr (c.object_to_cohort first) c
              (==_sym curr (c.object_to_cohort first) ∙ other) agree in
          let merged = merge_cohorts curr (c.object_to_cohort first) c in
          rw (other, merge_related)
            (Gathers-cons objects id first later c merged.1 merged.0 (merge_related later merged)
              known first_in coarser (labels id known (inl here)) (labels first first_in (inr refl))
              (merge_related-Gathers objects id later merged.0 merged.1 known within_later
                (labels id known (inl here)) agrees))
    ]

-- Parents of an object are together with it.
unfoldable pub Together : DependencyMap → Cohorts → UniqueId → Type 0
Together dependencies c id =
    (d : UniqueId)
    → contains d (deps_of dependencies id) ≡ true
    → c.object_to_cohort d ≡ c.object_to_cohort id

-- What the slice and its dependencies must satisfy: the dependencies of an object of the slice are
-- in the slice.
unfoldable pub IsClosed : DependencyMap → List UniqueId → Type 0
IsClosed dependencies objects =
    (id d : UniqueId)
    → contains id objects ≡ true
    → contains d (deps_of dependencies id) ≡ true
    → contains d objects ≡ true

pub children_within :
    (dependencies : DependencyMap) (slice : List Sortable) (id child : UniqueId)
    → contains child (is_dependent_on dependencies slice id) ≡ true
    → contains child (ids slice) ≡ true
unfolding is_dependent_on
children_within dependencies [] id child h = ground arith
children_within dependencies (item ∷ slice) id child h =
    ground (arith, children_within dependencies slice id child)

pub merge_item-Together :
    (dependencies : DependencyMap) (slice : List Sortable) (item : Sortable) (c : Cohorts)
    → IsClosed dependencies (ids slice)
    → contains item.unique_id (ids slice) ≡ true
    → Agree (ids slice) c
    → Agree (ids slice) (merge_item dependencies slice item c)
      × Coarsens (ids slice) c (merge_item dependencies slice item c)
      × Together dependencies (merge_item dependencies slice item c) item.unique_id
unfolding merge_item IsClosed Together Gathers Coarsens
merge_item-Together dependencies slice item c closed known agree =
    let id = item.unique_id in
    let within = λ (d : UniqueId) (h : contains d (deps_of dependencies item.unique_id) ≡ true).
      closed item.unique_id d known h in
    let up =
      merge_related (deps_of dependencies item.unique_id) (c.object_to_cohort item.unique_id, c) in
    let (agrees, coarser, label, parents) =
      merge_related-Gathers (ids slice) item.unique_id (deps_of dependencies item.unique_id)
        (c.object_to_cohort item.unique_id) c known within refl agree in
    let (agrees_yet, coarser_yet, end, children) =
      merge_related-Gathers (ids slice) item.unique_id
        (is_dependent_on dependencies slice item.unique_id) up.0 up.1 known
        (children_within dependencies slice item.unique_id) label agrees in
    (
      agrees_yet,
      λ a b in_a in_b same. coarser_yet a b in_a in_b (coarser a b in_a in_b same),
      λ d h. coarser_yet d item.unique_id (within d h) known (parents d h ∙ sym label),
    )
