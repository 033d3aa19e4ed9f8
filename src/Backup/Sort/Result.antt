-- ===== src/Backup/Sort/Result.antt =====
-- backup/dependencies.go: what TopologicalSort returns, and when it succeeds.
use gpbackup.Base.{
  ℕ, zero, suc, ◌+◌, ◌<◌, String, slice, ◌≡◌, refl, ap, subst, Bool, true, false, List, [], ◌∷◌,
  arith, if◌then◌else◌, nat_beq_iff, ◌==◌, nat_comparable, string_comparable, ==_refl, ==_sound,
  length,
}
use gpbackup.Base.Counting.{
  contains, count, IsDistinct, Included, contains→count, count→contains, length-le_of_Included,
  Included-of_length,
}
use gpbackup.Base.Results.{ok, fatal}
use gpbackup.Base.Counting.{count-distinct}
use gpbackup.Backup.Objects.{UniqueId, unique_id_comparable}
use gpbackup.Backup.Sort.{Sortable, ids, DependencyMap, deps_of, topological_sort}
use gpbackup.Backup.Sort.Pending.{pending, Follows}
use gpbackup.Backup.Sort.Invariant.{scheduled}
use gpbackup.Backup.Sort.Order.{
  length-ids, IsDistinct-of_count, final_state, final_state-Finished, sorted_room,
}

Included→pending : (seen ds : List UniqueId) → Included ds seen → pending seen ds ≡ 0
Included→pending seen [] inc = refl
Included→pending seen (d ∷ ds) inc =
    ground (arith, inc d, ==_refl d, Included→pending seen ds (λ a h. inc a (ground (arith, h))))

module _ (dependencies : DependencyMap) (slice : List Sortable) (distinct : IsDistinct (ids slice))
    (deps_distinct : (id : UniqueId) → IsDistinct (deps_of dependencies id)) where
  abbrev visited : List Sortable
  visited = (final_state dependencies slice distinct deps_distinct).sorted

  -- At the end only the visited objects are scheduled.
  final_count :
      (id : UniqueId)
      → scheduled dependencies slice distinct deps_distinct id
          (final_state dependencies slice distinct deps_distinct)
        ≡ count id (ids visited)
  final_count id =
      let (inv, (q, n)) = final_state-Finished dependencies slice distinct deps_distinct in
      let cq : count id (ids (final_state dependencies slice distinct deps_distinct).queue) ≡ 0 =
        ap (λ z. count id (ids z)) q in
      let cn : count id (ids (final_state dependencies slice distinct deps_distinct).next_tier)
          ≡ 0 =
        ap (λ z. count id (ids z)) n in
      omega (arith, cq, cn)

  sorted-IsDistinct : IsDistinct (ids visited)
  sorted-IsDistinct =
      let (inv, (q, n)) = final_state-Finished dependencies slice distinct deps_distinct in
      IsDistinct-of_count (ids visited) (λ id. omega (arith, inv.once id, final_count id))

  sorted-Included : Included (ids visited) (ids slice)
  sorted-Included id h =
      let (inv, (q, n)) = final_state-Finished dependencies slice distinct deps_distinct in
      inv.known id (omega (arith, final_count id, contains→count id (ids visited) h))

  sorted_all :
      length slice ≡ length visited
      → (id : UniqueId) → count id (ids visited) ≡ count id (ids slice)
  sorted_all e id =
      let back : Included (ids slice) (ids visited) =
        Included-of_length (ids visited) (ids slice) sorted-IsDistinct sorted-Included
          (omega (arith, e, length-ids visited, length-ids slice)) in
      ground (
        arith,
        back id,
        sorted-Included id,
        count-distinct id (ids visited) sorted-IsDistinct,
        count-distinct id (ids slice) distinct,
      )

  module _ (rank : UniqueId → ℕ)
      (closed : (id d : UniqueId)
        → contains id (ids slice) ≡ true
        → contains d (deps_of dependencies id) ≡ true
        → (contains d (ids slice) ≡ true) × (rank d < rank id)) where
    -- By induction on the rank every object is visited.
    reached :
        (n : ℕ) (id : UniqueId)
        → rank id < n
        → contains id (ids slice) ≡ true
        → contains id (ids visited) ≡ true
    reached zero id lt h = absurd (omega arith)
    reached (suc n) id lt h =
        let (inv, (q, e)) = final_state-Finished dependencies slice distinct deps_distinct in
        let nothing : pending (ids visited) (deps_of dependencies id) ≡ 0 =
          Included→pending (ids visited) (deps_of dependencies id) (λ d k.
            let (inside, below) = closed id d h k in
            reached n d (omega (arith, below, lt)) inside) in
        count→contains id (ids visited) (omega (arith, inv.complete id h nothing, final_count id))

    same_length : length slice ≡ length visited
    same_length =
        let (inv, (q, e)) = final_state-Finished dependencies slice distinct deps_distinct in
        omega (
          arith,
          sorted_room dependencies slice distinct deps_distinct
              (final_state dependencies slice distinct deps_distinct) inv,
          length-le_of_Included (ids slice) (ids visited) distinct
              (λ id h. reached (rank id + 1) id (omega arith) h),
          length-ids visited,
          length-ids slice,
        )

verdict :
    {A : Type 0} (b : Bool) (e : String) {x y : A}
    → (if b then ok x else fatal e) ≡ ok y
    → (b ≡ true) × (x ≡ y)
verdict true e h = (refl, cc)
verdict false e h = cc

-- When the sort does not fail, it returns every object of the slice exactly once and no other
-- object, and each behind all the objects on which it depends. The objects are distinct, and each
-- one's dependencies are.
pub topological_sort-order :
    (slice : List Sortable) (dependencies : DependencyMap) (sorted : List Sortable)
    (tiers : UniqueId → ℕ)
    → IsDistinct (ids slice)
    → ((id : UniqueId) → IsDistinct (deps_of dependencies id))
    → topological_sort slice dependencies ≡ ok (sorted, tiers)
    → Follows dependencies [] (ids sorted)
      × ((id : UniqueId) → count id (ids sorted) ≡ count id (ids slice))
unfolding topological_sort
topological_sort-order slice dependencies sorted tiers d dd h =
    let end = final_state dependencies slice d dd in
    let (inv, (q, n)) = final_state-Finished dependencies slice d dd in
    let (same, result) = verdict (length slice == length end.sorted) _ h in
    subst
      (λ s.
        Follows dependencies [] (ids s)
        × ((id : UniqueId) → count id (ids s) ≡ count id (ids slice)))
      (ap (λ z. z.0) result)
      (
        inv.order,
        sorted_all dependencies slice d dd (==_sound (length slice) (length end.sorted) same),
      )

-- The sort does not fail when no chain of dependencies leads back to where it starts, which is
-- said by a rank that falls along every dependency, and the objects depend only on objects of the
-- slice. In particular the fuel of the stages is enough.
pub topological_sort-succeeds :
    (slice : List Sortable) (dependencies : DependencyMap) (rank : UniqueId → ℕ)
    → IsDistinct (ids slice)
    → ((id : UniqueId) → IsDistinct (deps_of dependencies id))
    → ((id d : UniqueId)
        → contains id (ids slice) ≡ true
        → contains d (deps_of dependencies id) ≡ true
        → (contains d (ids slice) ≡ true) × (rank d < rank id))
    → (sorted : List Sortable) × (tiers : UniqueId → ℕ) × (topological_sort slice dependencies
        ≡ ok (sorted, tiers))
unfolding topological_sort
topological_sort-succeeds slice dependencies rank d dd closed =
    let end = final_state dependencies slice d dd in
    (
      end.sorted,
      end.tier_map,
      rw
          ((nat_beq_iff (length slice) (length end.sorted)).1
            (same_length dependencies slice d dd rank closed))
          refl,
    )
