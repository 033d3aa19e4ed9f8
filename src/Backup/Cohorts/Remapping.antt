-- ===== src/Backup/Cohorts/Remapping.antt =====
-- backup/dependencies.go: assignCohorts makes the numbers contiguous and keeps cohorts apart.
use gpbackup.Base.{
  ℕ, ◌+◌, ◌%◌, ◌<◌, ◌≤◌, ◌≡◌, refl, sym, ◌∙◌, subst, inl, inr, true, false, ◌||◌, List, [], ◌∷◌,
  arith, slice, Bool-cases, if◌then◌else◌, ltb, ◌==◌, ==_refl, nat_comparable, ==_sound, length,
  is_empty,
}
use gpbackup.Base.Maps.{keys}
use gpbackup.Base.Counting.{contains, IsDistinct}
use gpbackup.Base.Words.{u32}
use gpbackup.Backup.Objects.{UniqueId, unique_id_comparable}
use gpbackup.Backup.Sort.{Sortable, ids, DependencyMap}
use gpbackup.Backup.Cohorts.{
  Cohorts, own_cohorts, no_cohorts, merge_items, merge_cohorts, remap_cohorts, assign_cohorts,
}
use gpbackup.Backup.Cohorts.Relabelling.{Agree, Relabels, merge_into-Relabels}
use gpbackup.Backup.Cohorts.Together.{IsClosed}
use gpbackup.Backup.Cohorts.Separation.{Refines, KeysFit, IsFine, in_use}
use gpbackup.Backup.Cohorts.Colours.{IsColouring}
use gpbackup.Backup.Cohorts.Apart.{merged-IsFine}

-- The numbers rise, and none is below the first argument.
unfoldable pub Ascends : ℕ → List ℕ → Type 0
Ascends from [] = Unit
Ascends from (k ∷ later) = (from ≤ k) × Ascends (k + 1) later

Ascends-lower : (low from : ℕ) (xs : List ℕ) → low ≤ from → Ascends from xs → Ascends low xs
unfolding Ascends
Ascends-lower low from [] le rises = tt
Ascends-lower low from (k ∷ later) le (above, rises) = (omega (arith, le, above), rises)

Ascends-absent : (k from : ℕ) (xs : List ℕ) → k < from → Ascends from xs → contains k xs ≡ false
unfolding Ascends
Ascends-absent k from [] lt rises = refl
Ascends-absent k from (x ∷ later) lt (above, rises) =
    let ne : (x == k) ≡ false = ground (arith, lt, above) in
    let next : k < x + 1 = omega (arith, lt, above) in
    ground (arith, ne, Ascends-absent k (x + 1) later next rises)

-- The number of every object is below the next expected one or still to be remapped.
unfoldable Remapped : List UniqueId → ℕ → List ℕ → Cohorts → Type 0
Remapped objects expected cohorts c =
    (id : UniqueId)
    → contains id objects ≡ true
    → (ltb (c.object_to_cohort id) expected || contains (c.object_to_cohort id) cohorts) ≡ true

remap-step :
    (colour : UniqueId → ℕ) (objects : List UniqueId) (expected actual : ℕ) (cohorts : List ℕ)
    (c : Cohorts)
    → expected ≤ actual
    → Ascends (actual + 1) cohorts
    → Agree objects c
    → Refines colour objects c
    → Remapped objects expected (actual ∷ cohorts) c
    → Agree objects (if expected == actual then c else (merge_cohorts expected actual c).1)
      × Refines colour objects
          (if expected == actual then c else (merge_cohorts expected actual c).1)
      × Remapped objects
          (expected + 1)
          cohorts
          (if expected == actual then c else (merge_cohorts expected actual c).1)
unfolding merge_cohorts Refines Relabels Remapped
remap-step colour objects expected actual cohorts c le rises agree refines remapped =
    elim (Bool-cases (expected == actual)) [
      | inl same ↦ rw same (agree, refines, λ id known. ground (arith, remapped id known, same))
      | inr other ↦
          let lower : ltb expected actual ≡ true = ground (arith, le, other) in
          let (agrees, labels) = merge_into-Relabels objects expected actual c other agree in
          let next : expected < actual + 1 = omega (arith, le) in
          let absent : contains expected cohorts ≡ false =
            Ascends-absent expected (actual + 1) cohorts next rises in
          let unused : (id : UniqueId)
              → contains id objects ≡ true
              → (c.object_to_cohort id == expected) ≡ false =
            λ id known. elim (Bool-cases (c.object_to_cohort id == expected)) [
              | inr ne ↦ ne
              | inl eq ↦ absurd (
                  refute id (==_sound (c.object_to_cohort id) expected eq) other absent
                    (remapped id known))
            ] in
          rw (other, lower)
            (
              agrees,
              λ a b in_a in_b eq. refines a b in_a in_b (
                  injective a b (unused a in_a) (unused b in_b)
                    (sym (labels a in_a) ∙ (eq ∙ labels b in_b))),
              λ id known. rw (labels id known) (below id (remapped id known)),
            )
    ]
  where
    refute :
        (id : UniqueId)
        → c.object_to_cohort id ≡ expected
        → (expected == actual) ≡ false
        → contains expected cohorts ≡ false
        → (ltb (c.object_to_cohort id) expected
            || (actual == c.object_to_cohort id || contains (c.object_to_cohort id) cohorts))
          ≡ true
        → ⊥
    refute id eq other absent either = ground (arith, eq, other, absent, either)

    injective :
        (a b : UniqueId)
        → (c.object_to_cohort a == expected) ≡ false
        → (c.object_to_cohort b == expected) ≡ false
        → (if c.object_to_cohort a == actual then expected else c.object_to_cohort a)
          ≡ (if c.object_to_cohort b == actual then expected else c.object_to_cohort b)
        → c.object_to_cohort a ≡ c.object_to_cohort b
    injective a b ne_a ne_b eq = ground (arith, ne_a, ne_b, eq)

    below :
        (id : UniqueId)
        → (ltb (c.object_to_cohort id) expected
            || (actual == c.object_to_cohort id || contains (c.object_to_cohort id) cohorts))
          ≡ true
        → (ltb
              (if c.object_to_cohort id == actual then expected else c.object_to_cohort id)
              (expected + 1)
            || contains
                (if c.object_to_cohort id == actual then expected else c.object_to_cohort id)
                cohorts)
          ≡ true
    below id either = ground (arith, either)

remap_cohorts-Refines :
    (colour : UniqueId → ℕ) (objects : List UniqueId) (expected : ℕ) (cohorts : List ℕ)
    (c : Cohorts)
    → Ascends expected cohorts
    → ((k : ℕ) → contains k cohorts ≡ true → k < u32)
    → Agree objects c
    → Refines colour objects c
    → (is_empty cohorts ≡ false → Remapped objects expected cohorts c)
    → Refines colour objects (remap_cohorts expected cohorts c)
unfolding remap_cohorts Ascends
remap_cohorts-Refines colour objects expected [] c rises small agree refines remapped = refines
remap_cohorts-Refines colour objects expected (actual ∷ cohorts) c (above, rises) small agree
      refines remapped =
    let (agrees, refined, later) =
      remap-step colour objects expected actual cohorts c above rises agree refines
        (remapped refl) in
    let wrapped : (expected + 1) % u32 ≤ actual + 1 = omega (arith, above) in
    remap_cohorts-Refines colour objects ((expected + 1) % u32) cohorts
      (if expected == actual then c else (merge_cohorts expected actual c).1)
      (Ascends-lower ((expected + 1) % u32) (actual + 1) cohorts wrapped rises)
      (λ k h. small k (ground (arith, h))) agrees refined
      (λ more.
        subst
          (λ e.
            Remapped objects e cohorts
              (if expected == actual then c else (merge_cohorts expected actual c).1))
          (no_wrap cohorts more rises (λ k h. small k (ground (arith, h)))) later)
  where
    no_wrap :
        (numbers : List ℕ)
        → is_empty numbers ≡ false
        → Ascends (actual + 1) numbers
        → ((k : ℕ) → contains k numbers ≡ true → k < u32)
        → expected + 1 ≡ (expected + 1) % u32
    no_wrap [] more rises small = ground (arith, more)
    no_wrap (next ∷ later) more (over, rises) small =
        omega (arith, over, above, small next (ground (arith, ==_refl next)))

-- A function that sorts numbers: distinct ones come out in rising order.
unfoldable pub SortsNumbers : (List ℕ → List ℕ) → Type 0
SortsNumbers sort =
    (xs : List ℕ)
    → IsDistinct xs
    → Ascends 0 (sort xs) × ((k : ℕ) → contains k (sort xs) ≡ contains k xs)

Ascends-from_one :
    (xs : List ℕ) → ((k : ℕ) → contains k xs ≡ true → 0 < k) → Ascends 0 xs → Ascends 1 xs
unfolding Ascends
Ascends-from_one [] positive rises = tt
Ascends-from_one (k ∷ later) positive (above, rises) =
    (omega (arith, positive k (ground (arith, ==_refl k))), rises)

-- The remapping of cohorts whose numbers are the keys.
remap_cohorts-sorted :
    (slice_stable : List ℕ → List ℕ) (colour : UniqueId → ℕ) (objects : List UniqueId) (c : Cohorts)
    → SortsNumbers slice_stable
    → Agree objects c
    → IsFine colour objects c
    → Refines colour objects (remap_cohorts 1 (slice_stable (keys c.cohort_numbers)) c)
unfolding SortsNumbers Agree IsFine KeysFit Remapped
remap_cohorts-sorted slice_stable colour objects c sorts agree (refines, fits) =
    let (rises, same) = sorts (keys c.cohort_numbers) agree.2 in
    let key : (k : ℕ)
        → contains k (slice_stable (keys c.cohort_numbers)) ≡ true
        → (0 < k) × (k < u32) =
      λ k h. fits k (sym (same k) ∙ h) in
    remap_cohorts-Refines colour objects 1 (slice_stable (keys c.cohort_numbers)) c
      (Ascends-from_one (slice_stable (keys c.cohort_numbers)) (λ k h. (key k h).0) rises)
      (λ k h. (key k h).1) agree refines
      (λ more id known.
        ground (arith, same (c.object_to_cohort id), in_use objects c id agree known))

-- Two objects with one cohort number have the same colour, whatever colours the objects have that
-- are the same along every dependency: no cohort joins two sets of objects between which there is
-- no dependency. The numbers of the cohorts are sorted before they are made contiguous, the objects
-- are distinct and fewer than 2^32, and the dependencies of an object of the slice are in the slice.
pub assign_cohorts-IsColouring :
    (slice_stable : List ℕ → List ℕ) (slice : List Sortable) (dependencies : DependencyMap)
    (colour : UniqueId → ℕ) (a b : UniqueId)
    → SortsNumbers slice_stable
    → IsDistinct (ids slice)
    → length slice < u32
    → IsClosed dependencies (ids slice)
    → IsColouring dependencies (ids slice) colour
    → contains a (ids slice) ≡ true
    → contains b (ids slice) ≡ true
    → assign_cohorts slice_stable slice dependencies a
      ≡ assign_cohorts slice_stable slice dependencies b
    → colour a ≡ colour b
unfolding assign_cohorts Refines
assign_cohorts-IsColouring slice_stable slice dependencies colour a b sorts distinct small closed
      colouring in_a in_b same =
    let (agree, fine) = merged-IsFine slice dependencies colour distinct small closed colouring in
    remap_cohorts-sorted slice_stable colour (ids slice)
      (merge_items dependencies slice slice (own_cohorts 0 slice no_cohorts)) sorts agree fine a b
      in_a in_b same
