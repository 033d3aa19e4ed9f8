-- ===== src/Backup/Sort/Order.antt =====
-- backup/dependencies.go: the loops of TopologicalSort end, and keep their invariant.
use gpbackup.Base.{
  ℕ, zero, suc, ◌+◌, ◌-◌, ◌≤◌, ◌<◌, slice, ◌≡◌, refl, sym, ap, ◌↔◌, ◌⊎◌, inl, inr, true, ◌&&◌, List,
  [], ◌∷◌, ◌++◌, arith, if◌then◌else◌, Bool-cases, ◌==◌, nat_comparable, string_comparable, ==_refl,
  ==_sound, length, is_empty, length-append,
}
use gpbackup.Base.Counting.{
  contains, count, IsDistinct, count-append, contains→count, length-le_of_Included,
}
use gpbackup.Base.Counting.{count-distinct}
use gpbackup.Base.Words.{pos}
use gpbackup.Backup.Objects.{UniqueId, unique_id_comparable}
use gpbackup.Backup.Sort.{
  Sortable, ids, DependencyMap, deps_of, initial_in_degrees, initial_queue, SortState, visit,
  next_stage, stages, initial_state,
}
use gpbackup.Backup.Sort.Pending.{pending}
use gpbackup.Backup.Sort.Invariant.{IsInvariant, next_stage-IsInvariant, visit-IsInvariant}

pending-nil : (ds : List UniqueId) → pending [] ds ≡ length ds
pending-nil [] = refl
pending-nil (d ∷ ds) = omega (arith, pending-nil ds)

is_empty_iff : (ds : List UniqueId) → (is_empty ds ≡ true) ↔ (length ds ≡ 0)
is_empty_iff [] = (λ h. refl, λ h. refl)
is_empty_iff (d ∷ ds) = (λ h. cc, λ h. absurd (omega (arith, h)))

count-initial_queue :
    (dependencies : DependencyMap) (slice : List Sortable) (id : UniqueId)
    → count id (ids (initial_queue dependencies slice))
      ≡ (if is_empty (deps_of dependencies id) then count id (ids slice) else 0)
unfolding initial_queue
count-initial_queue dependencies [] id = ground arith
count-initial_queue dependencies (item ∷ slice) id = elim (Bool-cases (item.unique_id == id)) [
  | inl e ↦
      let same = ap (λ z. is_empty (deps_of dependencies z)) (==_sound item.unique_id id e) in
      ground (arith, e, same, count-initial_queue dependencies slice id)
  | inr e ↦ ground (arith, e, count-initial_queue dependencies slice id)
]

pub IsDistinct-of_count : (xs : List UniqueId) → ((id : UniqueId) → count id xs ≤ 1) → IsDistinct xs
IsDistinct-of_count [] h = tt
IsDistinct-of_count (x ∷ xs) h = (
  elim (Bool-cases (contains x xs)) [
    | inl e ↦ absurd (ground (arith, h x, ==_refl x, contains→count x xs e))
    | inr e ↦ e
  ],
  IsDistinct-of_count xs (λ id. omega (arith, h id)),
)

pub length-ids : (xs : List Sortable) → length (ids xs) ≡ length xs
length-ids [] = refl
length-ids (x ∷ xs) = ap suc (length-ids xs)

List-cases :
    (xs : List Sortable) → (xs ≡ []) ⊎ ((x : Sortable) × (rest : List Sortable) × (xs ≡ x ∷ rest))
List-cases [] = inl refl
List-cases (x ∷ xs) = inr (x, xs, refl)

module _ (dependencies : DependencyMap) (slice : List Sortable) (distinct : IsDistinct (ids slice))
    (deps_distinct : (id : UniqueId) → IsDistinct (deps_of dependencies id)) where
  abbrev pub Invariant : SortState → Type 0
  Invariant = IsInvariant dependencies slice distinct deps_distinct

  queued :
      (id : UniqueId)
      → count id (ids (initial_queue dependencies slice))
        ≡ (if is_empty (deps_of dependencies id) && contains id (ids slice) then 1 else 0)
  queued id =
      ground
        (arith, count-initial_queue dependencies slice id, count-distinct id (ids slice) distinct)

  -- What is scheduled at the start is in the slice and has no dependency.
  queued_iff :
      (id : UniqueId)
      → (0 < count id (ids (initial_queue dependencies slice)))
        ↔ ((contains id (ids slice) ≡ true) × (pending [] (deps_of dependencies id) ≡ 0))
  queued_iff id =
      let q = queued id in
      let e = is_empty_iff (deps_of dependencies id) in
      let n = pending-nil (deps_of dependencies id) in ground (arith, q, e, n)

  pub initial_state-IsInvariant : Invariant (initial_state dependencies slice)
  unfolding initial_state initial_in_degrees
  initial_state-IsInvariant = record {
    degrees = λ id k. rw k (ap pos (sym (pending-nil (deps_of dependencies id))));
    once = λ id. ground (arith, queued id);
    ready = λ id h. ((queued_iff id).0 (omega (arith, h))).1;
    known = λ id h. ((queued_iff id).0 (omega (arith, h))).0;
    complete = λ id k z. omega (arith, (queued_iff id).1 (k, z));
    order = tt;
  }

  pub sorted_room :
      (st : SortState) → Invariant st → length st.sorted + length st.queue ≤ length slice
  sorted_room st inv =
      let both = ids st.sorted ++ ids st.queue in
      let parts = λ (id : UniqueId). count-append id (ids st.sorted) (ids st.queue) in
      let few =
        length-le_of_Included both (ids slice)
          (IsDistinct-of_count both (λ id. omega (arith, parts id, inv.once id)))
          (λ id h. inv.known id (omega (arith, parts id, contains→count id both h))) in
      omega (
        arith,
        few,
        length-append (ids st.sorted) (ids st.queue),
        length-ids st.sorted,
        length-ids st.queue,
        length-ids slice,
      )

  -- Twice the objects to visit, and one more where a stage is about to start.
  abbrev pub measure : SortState → ℕ
  measure st =
      (length slice - length st.sorted)
      + (length slice - length st.sorted)
      + (if is_empty st.queue then 1 else 0)

  abbrev pub Finished : SortState → Type 0
  Finished st = Invariant st × ((st.queue ≡ []) × (st.next_tier ≡ []))

  measure-visit :
      (st : SortState) (item : Sortable) (rest : List Sortable)
      → Invariant st
      → st.queue ≡ item ∷ rest
      → measure (visit dependencies slice item rest st) < measure st
  unfolding visit
  measure-visit st item rest inv at =
      let room = sorted_room st inv in
      let busy = ap length at in
      let more = length-append st.sorted (item ∷ []) in
      ground (arith, room, busy, more, ap is_empty at)

  -- The fuel is enough: the stages end with nothing left in the queue and the next tier.
  pub stages-Finished :
      (n : ℕ) (st : SortState)
      → Invariant st
      → measure st ≤ n
      → Finished (stages dependencies slice n st)
  unfolding stages
  stages-Finished zero st inv h = elim (List-cases st.queue) [
    | inl e ↦ absurd (ground (arith, h, ap is_empty e))
    | inr (item, rest, e) ↦ absurd (omega (arith, h, measure-visit st item rest inv e))
  ]
  stages-Finished (suc n) st inv h = elim (List-cases st.queue) [
    | inr (item, rest, e) ↦
        rw (e, stages)
          (stages-Finished n (visit dependencies slice item rest st)
            (visit-IsInvariant dependencies slice distinct deps_distinct st item rest inv e)
            (omega (arith, h, measure-visit st item rest inv e)))
    | inl e ↦ elim (List-cases st.next_tier) [
      | inl f ↦ rw (e, f, stages) (inv, (e, f))
      | inr (item, items, f) ↦
          rw (e, f, stages)
            (stages-Finished n (next_stage st)
              (next_stage-IsInvariant dependencies slice distinct deps_distinct st e inv)
              (ground (arith, h, ap is_empty e, ap is_empty f)))
    ]
  ]

  measure-initial : measure (initial_state dependencies slice) ≤ length slice + length slice + 1
  unfolding initial_state
  measure-initial = ground arith

  abbrev pub final_state : SortState
  final_state =
      stages dependencies slice (length slice + length slice + 1) (initial_state dependencies slice)

  -- The state in which the stages of a sort end.
  pub final_state-Finished : Finished final_state
  final_state-Finished =
      stages-Finished _ (initial_state dependencies slice) initial_state-IsInvariant measure-initial
