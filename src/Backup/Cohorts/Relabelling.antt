-- ===== src/Backup/Cohorts/Relabelling.antt =====
-- backup/dependencies.go: mergeCohorts gives the objects of one cohort the number of the other.
use gpbackup.Base.{
  ℕ, ◌≡◌, refl, ap, subst, ◌∙◌, inl, inr, true, false, not, ◌&&◌, ◌||◌, List, [], ◌∷◌, arith,
  if◌then◌else◌, Bool-cases, Option-cases, ◌==◌, nat_comparable, string_comparable, ==_sound,
}
use gpbackup.Base.Maps.{GoMap, keys, lookup, put, delete, lookup-put, lookup-none}
use gpbackup.Base.Counting.{contains, contains-append, IsDistinct}
use gpbackup.Backup.Objects.{UniqueId, unique_id_comparable}
use gpbackup.Backup.Sort.{set_at}
use gpbackup.Backup.Cohorts.{Cohorts, add_id, members, move_objects, ensure_cohort, merge_into}

abbrev CohortMap : Type 0
CohortMap = GoMap ℕ (List UniqueId)

pub members-put :
    (k j : ℕ) (v : List UniqueId) (m : CohortMap)
    → members k (put j v m) ≡ (if j == k then v else members k m)
members-put k j v m = rw (members, lookup-put j k v m) (ground arith)

pub contains-keys-put :
    (k j : ℕ) (v : List UniqueId) (m : CohortMap)
    → contains k (keys (put j v m)) ≡ (j == k || contains k (keys m))
contains-keys-put k j v [] = ground arith
contains-keys-put k j v ((i, w) ∷ m) = ground (arith, contains-keys-put k j v m)

pub keys-put-IsDistinct :
    (j : ℕ) (v : List UniqueId) (m : CohortMap)
    → IsDistinct (keys m)
    → IsDistinct (keys (put j v m))
keys-put-IsDistinct j v [] d = (refl, tt)
keys-put-IsDistinct j v ((i, w) ∷ m) d =
    ground (arith, contains-keys-put i j v m, keys-put-IsDistinct j v m d.1)

members-absent : (k : ℕ) (m : CohortMap) → contains k (keys m) ≡ false → members k m ≡ []
members-absent k m h = rw (members, lookup-none k m h) refl

members-delete :
    (k j : ℕ) (m : CohortMap)
    → IsDistinct (keys m)
    → members k (delete j m) ≡ (if j == k then [] else members k m)
members-delete k j [] d = ground arith
members-delete k j ((i, w) ∷ m) d = ground (arith, members-delete k j m d.1, members-absent k m)

pub contains-keys-delete :
    (k j : ℕ) (m : CohortMap) → contains k (keys m) ≡ false → contains k (keys (delete j m)) ≡ false
contains-keys-delete k j [] h = refl
contains-keys-delete k j ((i, w) ∷ m) h = ground (arith, contains-keys-delete k j m)

keys-delete-IsDistinct :
    (j : ℕ) (m : CohortMap) → IsDistinct (keys m) → IsDistinct (keys (delete j m))
keys-delete-IsDistinct j [] d = tt
keys-delete-IsDistinct j ((i, w) ∷ m) d =
    ground (arith, contains-keys-delete i j m, keys-delete-IsDistinct j m d.1)

contains-add_id :
    (id object : UniqueId) (objects : List UniqueId)
    → contains id (add_id object objects) ≡ (object == id || contains id objects)
contains-add_id id object objects = elim (Bool-cases (contains object objects)) [
  | inr new ↦ ground (arith, new, contains-append id objects (object ∷ []))
  | inl known ↦ elim (Bool-cases (object == id)) [
    | inl same ↦
        ground (
          arith,
          known,
          same,
          subst (λ z. contains z objects ≡ true) (==_sound object id same) known,
        )
    | inr other ↦ ground (arith, known, other)
  ]
]

-- What the loop over a cohort's objects leaves.
Moved : ℕ → List UniqueId → (before after : Cohorts) → Type 0
Moved lower objects before after =
    ((id : UniqueId)
      → after.object_to_cohort id
        ≡ (if contains id objects then lower else before.object_to_cohort id))
    × ((k : ℕ) (id : UniqueId)
        → contains id (members k after.cohort_numbers)
          ≡ (contains id (members k before.cohort_numbers) || lower == k && contains id objects))
    × IsDistinct (keys after.cohort_numbers)

move_objects-Moved :
    (lower : ℕ) (objects : List UniqueId) (c : Cohorts)
    → IsDistinct (keys c.cohort_numbers)
    → Moved lower objects c (move_objects lower objects c)
unfolding move_objects Moved
move_objects-Moved lower [] c d = (λ id. refl, λ k id. ground arith, d)
move_objects-Moved lower (object ∷ objects) c d =
    let with_it = put lower (add_id object (members lower c.cohort_numbers)) c.cohort_numbers in
    let (labels, sets, distinct) =
      move_objects-Moved lower objects
        (record {
          object_to_cohort = set_at object lower c.object_to_cohort;
          cohort_numbers = with_it;
        })
        (keys-put-IsDistinct lower (add_id object (members lower c.cohort_numbers)) c.cohort_numbers
          d) in
    (
      λ id. labels id ∙ ground arith,
      λ k id.
          sets k id
          ∙ rw
              (members-put k lower (add_id object (members lower c.cohort_numbers))
                c.cohort_numbers)
              (here k id),
      distinct,
    )
  where
    here :
        (k : ℕ) (id : UniqueId)
        → (contains id (
              if lower == k
              then add_id object (members lower c.cohort_numbers)
              else members k c.cohort_numbers)
            || lower == k && contains id objects)
          ≡ (contains id (members k c.cohort_numbers)
              || lower == k && (object == id || contains id objects))
    here k id = elim (Bool-cases (lower == k)) [
      | inl same ↦ ground (
        arith,
        same,
        contains-add_id id object (members lower c.cohort_numbers),
        ap (λ z. members z c.cohort_numbers) (==_sound lower k same),
      )
      | inr other ↦ ground (arith, other)
    ]

-- The two maps agree: each object of the slice is a member of its cohort, and every member of a
-- cohort has its number.
unfoldable pub Agree : List UniqueId → Cohorts → Type 0
Agree objects c =
    ((id : UniqueId)
      → contains id objects ≡ true
      → contains id (members (c.object_to_cohort id) c.cohort_numbers) ≡ true)
    × ((k : ℕ) (id : UniqueId)
        → contains id (members k c.cohort_numbers) ≡ true
        → c.object_to_cohort id ≡ k)
    × IsDistinct (keys c.cohort_numbers)

-- The higher number becomes the lower one.
unfoldable pub Relabels : List UniqueId → (lower higher : ℕ) → (before after : Cohorts) → Type 0
Relabels objects lower higher before after =
    (id : UniqueId)
    → contains id objects ≡ true
    → after.object_to_cohort id
      ≡ (if before.object_to_cohort id == higher then lower else before.object_to_cohort id)

-- An empty cohort changes nothing of what the maps say.
Same : (before after : Cohorts) → Type 0
Same before after =
    ((k : ℕ) → members k after.cohort_numbers ≡ members k before.cohort_numbers)
    × ((id : UniqueId) → after.object_to_cohort id ≡ before.object_to_cohort id)
    × IsDistinct (keys after.cohort_numbers)

ensure_cohort-Same :
    (lower : ℕ) (c : Cohorts) → IsDistinct (keys c.cohort_numbers) → Same c (ensure_cohort lower c)
unfolding ensure_cohort Same
ensure_cohort-Same lower c d = elim (Option-cases (lookup lower c.cohort_numbers)) [
  | inl absent ↦
      rw (absent, ensure_cohort)
        (
          λ k.
              members-put k lower [] c.cohort_numbers
              ∙ ground (arith, absent, ap (λ z. members z c.cohort_numbers) {x = lower} {y = k}),
          λ id. refl,
          keys-put-IsDistinct lower [] c.cohort_numbers d,
        )
  | inr (objects, present) ↦ rw (present, ensure_cohort) (λ k. refl, λ id. refl, d)
]

-- The maps behind a merge, by what they say.
IsMerged : (lower higher : ℕ) → (before after : Cohorts) → Type 0
IsMerged lower higher before after =
    ((id : UniqueId)
      → after.object_to_cohort id ≡ (
          if contains id (members higher before.cohort_numbers)
          then lower
          else before.object_to_cohort id))
    × ((k : ℕ) (id : UniqueId)
        → contains id (members k after.cohort_numbers) ≡ (
            not (higher == k)
            && (contains id (members k before.cohort_numbers)
                || lower == k && contains id (members higher before.cohort_numbers))))
    × IsDistinct (keys after.cohort_numbers)

merge_into-IsMerged :
    (lower higher : ℕ) (c : Cohorts)
    → IsDistinct (keys c.cohort_numbers)
    → IsMerged lower higher c (merge_into lower higher c)
unfolding merge_into IsMerged Same Moved
merge_into-IsMerged lower higher c d =
    let (sets, labels, distinct) = ensure_cohort-Same lower c d in
    elim (Option-cases (lookup higher c.cohort_numbers)) [
      | inl absent ↦
          let empty : members higher c.cohort_numbers ≡ [] = ground (arith, absent) in
          rw (absent, merge_into)
            (
              λ id. labels id ∙ rw empty refl,
              λ k id. rw (sets k, empty) (nowhere k id empty),
              distinct,
            )
      | inr (objects, present) ↦
          let full : members higher c.cohort_numbers ≡ objects = ground (arith, present) in
          let (moved_labels, moved_sets, moved_distinct) =
            move_objects-Moved lower objects (ensure_cohort lower c) distinct in
          rw (present, merge_into)
            (
              λ id. moved_labels id ∙ rw (full, labels id) refl,
              λ k id.
                  rw
                    (members-delete k higher
                      (move_objects lower objects (ensure_cohort lower c)).cohort_numbers
                      moved_distinct)
                    (elim (Bool-cases (higher == k)) [
                      | inl same ↦ ground (arith, same)
                      | inr other ↦ rw other (moved_sets k id ∙ rw (sets k, full) refl)
                    ]),
              keys-delete-IsDistinct higher
                  (move_objects lower objects (ensure_cohort lower c)).cohort_numbers
                  moved_distinct,
            )
    ]
  where
    nowhere :
        (k : ℕ) (id : UniqueId)
        → members higher c.cohort_numbers ≡ []
        → contains id (members k c.cohort_numbers)
          ≡ (not (higher == k) && (contains id (members k c.cohort_numbers) || lower == k && false))
    nowhere k id empty = elim (Bool-cases (higher == k)) [
      | inl same ↦
          ground (arith, same, empty, ap (λ z. members z c.cohort_numbers) (==_sound higher k same))
      | inr other ↦ ground (arith, other)
    ]

-- The maps agree behind a merge, and the higher number has become the lower one.
pub merge_into-Relabels :
    (objects : List UniqueId) (lower higher : ℕ) (c : Cohorts)
    → (lower == higher) ≡ false
    → Agree objects c
    → Agree objects (merge_into lower higher c)
      × Relabels objects lower higher c (merge_into lower higher c)
unfolding Agree Relabels IsMerged
merge_into-Relabels objects lower higher c ne (a, b, d) =
    let (labels, sets, distinct) = merge_into-IsMerged lower higher c d in
    let new : (id : UniqueId)
        → contains id objects ≡ true
        → (merge_into lower higher c).object_to_cohort id
          ≡ (if c.object_to_cohort id == higher then lower else c.object_to_cohort id) =
      λ id known. labels id ∙ relabelled a b id known in
    (
      (
        λ id known. rw (new id known) (
            sets (if c.object_to_cohort id == higher then lower else c.object_to_cohort id) id
            ∙ stays a id known),
        λ k id there. ground (arith, labels id, sets k id, there, b k id, b higher id),
        distinct,
      ),
      new,
    )
  where
    relabelled :
        ((id : UniqueId)
          → contains id objects ≡ true
          → contains id (members (c.object_to_cohort id) c.cohort_numbers) ≡ true)
        → ((k : ℕ) (id : UniqueId)
            → contains id (members k c.cohort_numbers) ≡ true
            → c.object_to_cohort id ≡ k)
        → (id : UniqueId) → contains id objects ≡ true
        → (if contains id (members higher c.cohort_numbers) then lower else c.object_to_cohort id)
          ≡ (if c.object_to_cohort id == higher then lower else c.object_to_cohort id)
    relabelled a b id known = elim (Bool-cases (c.object_to_cohort id == higher)) [
      | inl same ↦ ground (
        arith,
        same,
        a id known,
        ap (λ z. members z c.cohort_numbers) (==_sound (c.object_to_cohort id) higher same),
      )
      | inr other ↦ ground (arith, other, b higher id)
    ]

    stays :
        ((id : UniqueId)
          → contains id objects ≡ true
          → contains id (members (c.object_to_cohort id) c.cohort_numbers) ≡ true)
        → (id : UniqueId) → contains id objects ≡ true
        → (not
              (higher == (if c.object_to_cohort id == higher then lower else c.object_to_cohort id))
            && (contains id (
                  members
                    (if c.object_to_cohort id == higher then lower else c.object_to_cohort id)
                    c.cohort_numbers)
                || lower
                    == (if c.object_to_cohort id == higher then lower else c.object_to_cohort id)
                  && contains id (members higher c.cohort_numbers)))
          ≡ true
    stays a id known = elim (Bool-cases (c.object_to_cohort id == higher)) [
      | inl same ↦ rw same (
          ground (
            arith,
            ne,
            a id known,
            ap (λ z. members z c.cohort_numbers) (==_sound (c.object_to_cohort id) higher same),
          ))
      | inr other ↦ rw other (ground (arith, other, a id known))
    ]
