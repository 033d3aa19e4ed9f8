-- ===== src/Backup/Cohorts/Assignment.antt =====
-- backup/dependencies.go: assignCohorts puts an object and its dependencies into one cohort.
use gpbackup.Base.{
  ℕ, ◌+◌, ◌%◌, ◌<◌, slice, ◌≡◌, refl, subst, ◌∙◌, inl, inr, true, false, List, [], ◌∷◌, ◌++◌, arith,
  Bool-cases, ◌==◌, nat_comparable, string_comparable, ==_refl, ==_sound, length,
}
use gpbackup.Base.Maps.{keys, put}
use gpbackup.Base.Counting.{contains, contains-append, IsDistinct, ne_of_contains}
use gpbackup.Base.Words.{u32}
use gpbackup.Backup.Objects.{UniqueId, unique_id_comparable}
use gpbackup.Backup.Sort.{Sortable, ids, DependencyMap, deps_of, set_at}
use gpbackup.Backup.Cohorts.{
  Cohorts, members, merge_cohorts, own_cohorts, merge_item, merge_items, remap_cohorts, no_cohorts,
  assign_cohorts,
}
use gpbackup.Backup.Cohorts.Relabelling.{Agree, members-put, keys-put-IsDistinct}
use gpbackup.Backup.Cohorts.Together.{
  Coarsens, IsMerge, Together, IsClosed, merge_cohorts-IsMerge, merge_item-Together,
}

pub merge_items-Together :
    (dependencies : DependencyMap) (slice items : List Sortable) (c : Cohorts)
    → IsClosed dependencies (ids slice)
    → ((id : UniqueId) → contains id (ids items) ≡ true → contains id (ids slice) ≡ true)
    → Agree (ids slice) c
    → Agree (ids slice) (merge_items dependencies slice items c)
      × Coarsens (ids slice) c (merge_items dependencies slice items c)
      × ((id : UniqueId)
          → contains id (ids items) ≡ true
          → Together dependencies (merge_items dependencies slice items c) id)
unfolding merge_items Coarsens Together IsClosed
merge_items-Together dependencies slice [] c closed within agree =
    (agree, λ a b in_a in_b same. same, λ id h. ground arith)
merge_items-Together dependencies slice (item ∷ items) c closed within agree =
    let known = within item.unique_id (ground (arith, ==_refl item.unique_id)) in
    let (agrees, coarser, parents) =
      merge_item-Together dependencies slice item c closed known agree in
    let (agrees_yet, coarser_yet, later) =
      merge_items-Together dependencies slice items (merge_item dependencies slice item c) closed
        (λ id h. within id (ground (arith, h))) agrees in
    (
      agrees_yet,
      λ a b in_a in_b same. coarser_yet a b in_a in_b (coarser a b in_a in_b same),
      λ id h d dep. elim (Bool-cases (item.unique_id == id)) [
        | inl first ↦
            let is_dep : contains d (deps_of dependencies item.unique_id) ≡ true =
              rw (==_sound item.unique_id id first) dep in
            subst
              (λ z.
                (merge_items dependencies slice items
                    (merge_item dependencies slice item c)).object_to_cohort
                  d
                ≡ (merge_items dependencies slice items
                      (merge_item dependencies slice item c)).object_to_cohort
                    z)
              (==_sound item.unique_id id first)
              (coarser_yet d item.unique_id (closed item.unique_id d known is_dep) known
                (parents d is_dep))
        | inr other ↦ later id (ground (arith, h, other)) d dep
      ],
    )

-- The remapping keeps cohorts together, in whatever order the numbers are.
remap_cohorts-Coarsens :
    (objects : List UniqueId) (expected : ℕ) (cohorts : List ℕ) (c : Cohorts)
    → Agree objects c
    → Coarsens objects c (remap_cohorts expected cohorts c)
unfolding remap_cohorts Coarsens IsMerge
remap_cohorts-Coarsens objects expected [] c agree = λ a b in_a in_b same. same
remap_cohorts-Coarsens objects expected (actual ∷ cohorts) c agree =
    elim (Bool-cases (expected == actual)) [
      | inl same ↦
          rw (same, remap_cohorts)
            (remap_cohorts-Coarsens objects ((expected + 1) % u32) cohorts c agree)
      | inr other ↦
          let (agrees, coarser, labels) =
            merge_cohorts-IsMerge objects expected actual c other agree in
          rw (other, remap_cohorts)
            (λ a b in_a in_b same.
              remap_cohorts-Coarsens objects ((expected + 1) % u32) cohorts
                (merge_cohorts expected actual c).1 agrees a b in_a in_b
                (coarser a b in_a in_b same))
    ]

-- The first loop: the objects that have a number so far, each alone in its cohort.
unfoldable pub Started : ℕ → List UniqueId → Cohorts → Type 0
Started i done c =
    Agree done c
    × ((k : ℕ) → i < k → members k c.cohort_numbers ≡ [])
    × ((k : ℕ) (id : UniqueId)
        → contains id (members k c.cohort_numbers) ≡ true
        → contains id done ≡ true)

own_cohorts-step :
    (i : ℕ) (done : List UniqueId) (id : UniqueId) (c : Cohorts)
    → i + 1 < u32
    → contains id done ≡ false
    → Started i done c
    → Started (i + 1) (id ∷ done) (record {
      object_to_cohort = set_at id ((i + 1) % u32) c.object_to_cohort;
      cohort_numbers = put ((i + 1) % u32) (id ∷ []) c.cohort_numbers;
    })
unfolding Started Agree
own_cohorts-step i done id c small new ((a, b, d), empty, within) =
    let wrap : (i + 1) % u32 ≡ i + 1 = omega arith in
    let put_members = λ (k : ℕ). members-put k (i + 1) (id ∷ []) c.cohort_numbers in
    rw wrap (
      (
        λ j h. elim (Bool-cases (id == j)) [
          | inl same ↦ rw same (rw (put_members (i + 1)) (ground (arith, same)))
          | inr other ↦ rw other (
              rw (put_members (c.object_to_cohort j))
                (ground (arith, h, other, a j, empty (c.object_to_cohort j))))
        ],
        λ k j h. elim (Bool-cases (i + 1 == k)) [
          | inl same ↦ ground (arith, same, h, put_members k)
          | inr other ↦
              let old : contains j (members k c.cohort_numbers) ≡ true =
                ground (arith, h, other, put_members k) in
              rw (ne_of_contains id j done new (within k j old)) (b k j old)
        ],
        keys-put-IsDistinct (i + 1) (id ∷ []) c.cohort_numbers d,
      ),
      λ k above. put_members k ∙ ground (arith, empty k, above),
      λ k j h. ground (arith, h, put_members k, within k j),
    )

pub Agree-fewer :
    (xs ys : List UniqueId) (c : Cohorts)
    → ((id : UniqueId) → contains id ys ≡ true → contains id xs ≡ true)
    → Agree xs c
    → Agree ys c
unfolding Agree
Agree-fewer xs ys c fewer (a, b, d) = (λ id h. a id (fewer id h), b, d)

pub own_cohorts-Started :
    (i : ℕ) (done : List UniqueId) (slice : List Sortable) (c : Cohorts)
    → i + length slice < u32
    → IsDistinct (ids slice)
    → ((id : UniqueId) → contains id (ids slice) ≡ true → contains id done ≡ false)
    → Started i done c
    → Agree (ids slice ++ done) (own_cohorts i slice c)
unfolding own_cohorts Started Agree
own_cohorts-Started i done [] c small d new started = started.0
own_cohorts-Started i done (item ∷ slice) c small d new started =
    let first =
      own_cohorts-step i done item.unique_id c (omega (arith, small))
        (new item.unique_id (ground (arith, ==_refl item.unique_id))) started in
    let later =
      own_cohorts-Started (i + 1) (item.unique_id ∷ done) slice
        (record {
          object_to_cohort = set_at item.unique_id ((i + 1) % u32) c.object_to_cohort;
          cohort_numbers = put ((i + 1) % u32) (item.unique_id ∷ []) c.cohort_numbers;
        })
        (omega (arith, small)) d.1
        (λ id h. ground (arith, h, new id, ne_of_contains item.unique_id id (ids slice) d.0 h))
        first in
    Agree-fewer (ids slice ++ item.unique_id ∷ done) (item.unique_id ∷ (ids slice ++ done))
      (own_cohorts i (item ∷ slice) c)
      (λ id h. ground (
        arith,
        h,
        contains-append id (ids slice) (item.unique_id ∷ done),
        contains-append id (ids slice) done,
      ))
      later

pub none-Started : Started 0 [] no_cohorts
unfolding Started Agree
none-Started =
    ((λ id h. ground arith, λ k id h. ground arith, tt), λ k h. refl, λ k id h. ground arith)

-- An object and each of its dependencies have the same cohort number. The objects are distinct and
-- fewer than 2^32, and the dependencies of an object of the slice are in the slice. This holds
-- however the numbers of the cohorts are ordered before they are made contiguous.
pub assign_cohorts-together :
    (slice_stable : List ℕ → List ℕ) (slice : List Sortable) (dependencies : DependencyMap)
    (id d : UniqueId)
    → IsDistinct (ids slice)
    → length slice < u32
    → IsClosed dependencies (ids slice)
    → contains id (ids slice) ≡ true
    → contains d (deps_of dependencies id) ≡ true
    → assign_cohorts slice_stable slice dependencies d
      ≡ assign_cohorts slice_stable slice dependencies id
unfolding assign_cohorts Coarsens Together IsClosed
assign_cohorts-together slice_stable slice dependencies id d distinct small closed known dep =
    let own = own_cohorts 0 slice no_cohorts in
    let merged = merge_items dependencies slice slice own in
    let started =
      own_cohorts-Started 0 [] slice no_cohorts (omega (arith, small)) distinct (λ j h. refl)
        none-Started in
    let agree =
      Agree-fewer (ids slice ++ []) (ids slice) own
        (λ j h. ground (arith, h, contains-append j (ids slice) [])) started in
    let (agrees, coarser, together) =
      merge_items-Together dependencies slice slice own closed (λ j h. h) agree in
    remap_cohorts-Coarsens (ids slice) 1 (slice_stable (keys merged.cohort_numbers)) merged agrees d
      id (closed id d known dep) known (together id known d dep)
