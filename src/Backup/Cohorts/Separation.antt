-- ===== src/Backup/Cohorts/Separation.antt =====
-- backup/dependencies.go: assignCohorts merges no more than the dependencies require.
use gpbackup.Base.{
  ℕ, ◌<◌, ◌≡◌, sym, subst, ◌∙◌, inl, inr, true, false, ◌||◌, List, [], ◌∷◌, arith, ltb,
  if◌then◌else◌, Bool-cases, Option-cases, ◌==◌, nat_comparable, string_comparable, ==_sound,
  ==_sym,
}
use gpbackup.Base.Maps.{keys, lookup, put, delete, lookup-none}
use gpbackup.Base.Counting.{contains}
use gpbackup.Base.Words.{u32}
use gpbackup.Backup.Objects.{UniqueId, unique_id_comparable}
use gpbackup.Backup.Sort.{set_at}
use gpbackup.Backup.Cohorts.{
  Cohorts, members, add_id, move_objects, ensure_cohort, merge_into, merge_cohorts,
}
use gpbackup.Backup.Cohorts.Relabelling.{
  Agree, Relabels, merge_into-Relabels, contains-keys-put, contains-keys-delete,
}

-- Objects of one cohort have one colour.
unfoldable pub Refines : (UniqueId → ℕ) → List UniqueId → Cohorts → Type 0
Refines colour objects c =
    (a b : UniqueId)
    → contains a objects ≡ true
    → contains b objects ≡ true
    → c.object_to_cohort a ≡ c.object_to_cohort b
    → colour a ≡ colour b

-- A merge of the cohorts of two objects of one colour.
merge_cohorts-Refines :
    (colour : UniqueId → ℕ) (objects : List UniqueId) (x y : UniqueId) (c : Cohorts)
    → (c.object_to_cohort x == c.object_to_cohort y) ≡ false
    → contains x objects ≡ true
    → contains y objects ≡ true
    → colour x ≡ colour y
    → Agree objects c
    → Refines colour objects c
    → Refines colour objects (merge_cohorts (c.object_to_cohort x) (c.object_to_cohort y) c).1
unfolding merge_cohorts Refines Relabels
merge_cohorts-Refines colour objects x y c ne in_x in_y same agree refines =
    elim (Bool-cases (ltb (c.object_to_cohort x) (c.object_to_cohort y))) [
      | inl lower ↦
          let (agrees, labels) =
            merge_into-Relabels objects (c.object_to_cohort x) (c.object_to_cohort y) c ne agree in
          rw (lower, merge_cohorts)
            (λ a b in_a in_b eq.
              split x y same in_x in_y a b in_a in_b (sym (labels a in_a) ∙ (eq ∙ labels b in_b)))
      | inr higher ↦
          let (agrees, labels) =
            merge_into-Relabels objects (c.object_to_cohort y) (c.object_to_cohort x) c
              (==_sym (c.object_to_cohort y) (c.object_to_cohort x) ∙ ne) agree in
          rw (higher, merge_cohorts)
            (λ a b in_a in_b eq.
              split y x (sym same) in_y in_x a b in_a in_b
                (sym (labels a in_a) ∙ (eq ∙ labels b in_b)))
    ]
  where
    split :
        (low high : UniqueId)
        → colour low ≡ colour high
        → contains low objects ≡ true
        → contains high objects ≡ true
        → (a b : UniqueId) → contains a objects ≡ true
        → contains b objects ≡ true
        → (if c.object_to_cohort a == c.object_to_cohort high
            then c.object_to_cohort low
            else c.object_to_cohort a)
          ≡ (if c.object_to_cohort b == c.object_to_cohort high
              then c.object_to_cohort low
              else c.object_to_cohort b)
        → colour a ≡ colour b
    split low high same in_low in_high a b in_a in_b eq = ground (
      arith,
      eq,
      refines a b in_a in_b,
      refines a high in_a in_high,
      refines b high in_b in_high,
      refines a low in_a in_low,
      refines b low in_b in_low,
      same,
    )

-- The numbers of cohorts are positive uint32 numbers.
unfoldable pub KeysFit : Cohorts → Type 0
KeysFit c = (k : ℕ) → contains k (keys c.cohort_numbers) ≡ true → (0 < k) × (k < u32)

move_objects-keys :
    (lower k : ℕ) (objects : List UniqueId) (c : Cohorts)
    → contains k (keys (move_objects lower objects c).cohort_numbers) ≡ true
    → (lower == k || contains k (keys c.cohort_numbers)) ≡ true
unfolding move_objects
move_objects-keys lower k [] c h = ground (arith, h)
move_objects-keys lower k (object ∷ objects) c h =
    let before =
      move_objects-keys lower k objects
        (record {
          object_to_cohort = set_at object lower c.object_to_cohort;
          cohort_numbers =
              put lower (add_id object (members lower c.cohort_numbers)) c.cohort_numbers;
        })
        h in
    ground (
      arith,
      before,
      contains-keys-put k lower (add_id object (members lower c.cohort_numbers)) c.cohort_numbers,
    )

ensure_cohort-keys :
    (lower k : ℕ) (c : Cohorts)
    → contains k (keys (ensure_cohort lower c).cohort_numbers) ≡ true
    → (lower == k || contains k (keys c.cohort_numbers)) ≡ true
unfolding ensure_cohort
ensure_cohort-keys lower k c h = elim (Option-cases (lookup lower c.cohort_numbers)) [
  | inl absent ↦ ground (arith, h, absent, contains-keys-put k lower [] c.cohort_numbers)
  | inr (objects, present) ↦ ground (arith, h, present)
]

merge_into-keys :
    (lower higher k : ℕ) (c : Cohorts)
    → contains k (keys (merge_into lower higher c).cohort_numbers) ≡ true
    → (lower == k || contains k (keys c.cohort_numbers)) ≡ true
unfolding merge_into
merge_into-keys lower higher k c h = elim (Option-cases (lookup higher c.cohort_numbers)) [
  | inl absent ↦ ensure_cohort-keys lower k c (ground (arith, h, absent))
  | inr (objects, present) ↦
      let moved = (move_objects lower objects (ensure_cohort lower c)).cohort_numbers in
      let kept : contains k (keys (delete higher moved)) ≡ true = ground (arith, h, present) in
      let in_moved : contains k (keys moved) ≡ true =
        ground (arith, kept, contains-keys-delete k higher moved) in
      ground (
        arith,
        move_objects-keys lower k objects (ensure_cohort lower c) in_moved,
        ensure_cohort-keys lower k c,
      )
]

-- The number of an object is in use.
pub in_use :
    (objects : List UniqueId) (c : Cohorts) (x : UniqueId)
    → Agree objects c
    → contains x objects ≡ true
    → contains (c.object_to_cohort x) (keys c.cohort_numbers) ≡ true
unfolding Agree
in_use objects c x (a, b, d) known =
    elim (Bool-cases (contains (c.object_to_cohort x) (keys c.cohort_numbers))) [
      | inl used ↦ used
      | inr unused ↦
          absurd
            (ground (arith, a x known, lookup-none (c.object_to_cohort x) c.cohort_numbers unused))
    ]

merge_cohorts-KeysFit :
    (objects : List UniqueId) (x y : UniqueId) (c : Cohorts)
    → contains x objects ≡ true
    → contains y objects ≡ true
    → Agree objects c
    → KeysFit c
    → KeysFit (merge_cohorts (c.object_to_cohort x) (c.object_to_cohort y) c).1
unfolding merge_cohorts KeysFit
merge_cohorts-KeysFit objects x y c in_x in_y agree fits k h =
    elim (Bool-cases (ltb (c.object_to_cohort x) (c.object_to_cohort y))) [
      | inl lower ↦ fits k (
          used x in_x (
            merge_into-keys (c.object_to_cohort x) (c.object_to_cohort y) k c
              (ground (arith, h, lower))))
      | inr higher ↦ fits k (
          used y in_y (
            merge_into-keys (c.object_to_cohort y) (c.object_to_cohort x) k c
              (ground (arith, h, higher))))
    ]
  where
    used :
        (z : UniqueId)
        → contains z objects ≡ true
        → (c.object_to_cohort z == k || contains k (keys c.cohort_numbers)) ≡ true
        → contains k (keys c.cohort_numbers) ≡ true
    used z in_z either = elim (Bool-cases (c.object_to_cohort z == k)) [
      | inl same ↦
          subst (λ j. contains j (keys c.cohort_numbers) ≡ true)
            (==_sound (c.object_to_cohort z) k same) (in_use objects c z agree in_z)
      | inr other ↦ ground (arith, either, other)
    ]

-- What every merge of cohorts of one colour keeps.
unfoldable pub IsFine : (UniqueId → ℕ) → List UniqueId → Cohorts → Type 0
unfolding Refines KeysFit
IsFine colour objects c = Refines colour objects c × KeysFit c

pub merge_cohorts-IsFine :
    (colour : UniqueId → ℕ) (objects : List UniqueId) (x y : UniqueId) (c : Cohorts)
    → (c.object_to_cohort x == c.object_to_cohort y) ≡ false
    → contains x objects ≡ true
    → contains y objects ≡ true
    → colour x ≡ colour y
    → Agree objects c
    → IsFine colour objects c
    → IsFine colour objects (merge_cohorts (c.object_to_cohort x) (c.object_to_cohort y) c).1
unfolding IsFine
merge_cohorts-IsFine colour objects x y c ne in_x in_y same agree (refines, fits) = (
  merge_cohorts-Refines colour objects x y c ne in_x in_y same agree refines,
  merge_cohorts-KeysFit objects x y c in_x in_y agree fits,
)
