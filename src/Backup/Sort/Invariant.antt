-- ===== src/Backup/Sort/Invariant.antt =====
-- backup/dependencies.go: the invariant of the loops of TopologicalSort.
use gpbackup.Base.{
  ℕ, suc, ◌+◌, ◌≤◌, ◌<◌, ◌≡◌, refl, sym, ap, subst, ◌∙◌, ◌⊎◌, inl, inr, true, false, List, [], ◌∷◌,
  ◌++◌, arith, if◌then◌else◌, nat_beq_iff, Bool-cases, &&_left, &&_right, ◌==◌, nat_comparable,
  string_comparable, ==_refl, filter,
}
use gpbackup.Base.Counting.{contains, count, IsDistinct, count-append, contains→count}
use gpbackup.Base.Counting.{count-filter, count-distinct}
use gpbackup.Base.Words.{pos, decrement, is_zero}
use gpbackup.Backup.Objects.{UniqueId, unique_id_comparable}
use gpbackup.Backup.Sort.{
  Sortable, ids, DependencyMap, deps_of, is_dependent_on, SortState, visit, next_stage,
}
use gpbackup.Backup.Sort.Relax.{
  ids-append, relax-degrees, relax-next_tier, contains-is_dependent_on, is_dependent_on-IsDistinct,
}
use gpbackup.Backup.Sort.Pending.{pending, pending-snoc, pending→Included, Follows, Follows-snoc}

module _ (dependencies : DependencyMap) (slice : List Sortable) (distinct : IsDistinct (ids slice))
    (deps_distinct : (id : UniqueId) → IsDistinct (deps_of dependencies id)) where
  -- How often an object is visited or waits to be.
  abbrev pub scheduled : UniqueId → SortState → ℕ
  scheduled id st = count id (ids st.sorted) + count id (ids st.queue) + count id (ids st.next_tier)

  pub record IsInvariant (st : SortState) : Type 0 where
    pub degrees :
        (id : UniqueId)
        → contains id (ids slice) ≡ true
        → st.in_degrees id ≡ pos (pending (ids st.sorted) (deps_of dependencies id))
    pub once : (id : UniqueId) → scheduled id st ≤ 1
    pub ready :
        (id : UniqueId)
        → 0 < scheduled id st
        → pending (ids st.sorted) (deps_of dependencies id) ≡ 0
    pub known : (id : UniqueId) → 0 < scheduled id st → contains id (ids slice) ≡ true
    pub complete :
        (id : UniqueId)
        → contains id (ids slice) ≡ true
        → pending (ids st.sorted) (deps_of dependencies id) ≡ 0
        → 0 < scheduled id st
    pub order : Follows dependencies [] (ids st.sorted)

  pub next_stage-IsInvariant :
      (st : SortState) → st.queue ≡ [] → IsInvariant st → IsInvariant (next_stage st)
  next_stage-IsInvariant st e inv =
      let same = λ (id : UniqueId). ap (λ q. count id (ids q)) e in
      record {
        degrees = inv.degrees;
        once = λ id. omega (arith, inv.once id, same id);
        ready = λ id h. inv.ready id (omega (arith, h, same id));
        known = λ id h. inv.known id (omega (arith, h, same id));
        complete = λ id k z. omega (arith, inv.complete id k z, same id);
        order = inv.order;
      }

  module _ (st : SortState) (item : Sortable) (rest : List Sortable) (inv : IsInvariant st)
      (at : st.queue ≡ item ∷ rest) where
    abbrev p : UniqueId
    p = item.unique_id

    abbrev seen : List UniqueId
    seen = ids st.sorted

    abbrev left : UniqueId → ℕ
    left id = pending (seen ++ p ∷ []) (deps_of dependencies id)

    abbrev fresh_ids : List UniqueId
    fresh_ids =
        filter (λ id. is_zero (decrement (st.in_degrees id))) (is_dependent_on dependencies slice p)

    abbrev end : SortState
    end = visit dependencies slice item rest st

    queue_count :
        (id : UniqueId) → count id (ids st.queue) ≡ (if p == id then 1 else 0) + count id (ids rest)
    queue_count id = ap (λ q. count id (ids q)) at

    p_waits : 0 < scheduled p st
    p_waits = ground (arith, queue_count p, ==_refl p)

    p_new : contains p seen ≡ false
    p_new = elim (Bool-cases (contains p (ids st.sorted))) [
      | inl e ↦
          absurd (
            ground
              (arith, inv.once p, queue_count p, ==_refl p, contains→count p (ids st.sorted) e))
      | inr e ↦ e
    ]

    pend :
        (id : UniqueId)
        → pending seen (deps_of dependencies id)
          ≡ left id + (if contains p (deps_of dependencies id) then 1 else 0)
    pend id = pending-snoc seen p (deps_of dependencies id) (deps_distinct id) p_new

    sorted_ids : ids end.sorted ≡ seen ++ p ∷ []
    unfolding visit
    sorted_ids = ids-append st.sorted (item ∷ [])

    -- What a dependent's degree is before and after.
    dependent :
        (id : UniqueId)
        → contains id (is_dependent_on dependencies slice p) ≡ true
        → (contains id (ids slice) ≡ true)
          × (pending seen (deps_of dependencies id) ≡ suc (left id))
          × (decrement (st.in_degrees id) ≡ pos (left id))
    dependent id h =
        let both = sym (contains-is_dependent_on dependencies slice p id) ∙ h in
        let k : contains id (ids slice) ≡ true = &&_left _ _ both in
        let asks : contains p (deps_of dependencies id) ≡ true = &&_right _ _ both in
        let one : pending seen (deps_of dependencies id) ≡ suc (left id) =
          ground (arith, pend id, asks) in
        (k, one, ap decrement (inv.degrees id k ∙ ap pos one))

    fresh_count :
        (id : UniqueId)
        → (count id fresh_ids ≡ 0)
          ⊎ ((count id fresh_ids ≡ 1)
              × (contains id (is_dependent_on dependencies slice p) ≡ true)
              × (left id ≡ 0))
    fresh_count id =
        let c =
          count-filter (λ id. is_zero (decrement (st.in_degrees id))) id
            (is_dependent_on dependencies slice p) in
        let o =
          count-distinct id (is_dependent_on dependencies slice p)
            (is_dependent_on-IsDistinct dependencies slice p distinct) in
        elim (Bool-cases (contains id (is_dependent_on dependencies slice p))) [
          | inr e ↦ inl (ground (arith, c, o, e))
          | inl e ↦ elim (Bool-cases (is_zero (decrement (st.in_degrees id)))) [
            | inr z ↦ inl (ground (arith, c, z))
            | inl z ↦
                let zero_left : is_zero (pos (left id)) ≡ true =
                  ap is_zero (sym (dependent id e).2) ∙ z in
                inr (ground (arith, c, z, o, e), e, (nat_beq_iff (left id) 0).0 zero_left)
          ]
        ]

    next_ids : ids end.next_tier ≡ ids st.next_tier ++ fresh_ids
    unfolding visit
    next_ids =
        relax-next_tier slice (is_dependent_on dependencies slice item.unique_id) st.in_degrees
          st.next_tier (λ id. decrement (st.in_degrees id))
          (is_dependent_on-IsDistinct dependencies slice item.unique_id distinct)
          (λ id h. (dependent id h).0) (λ id h. refl)

    end-count : (id : UniqueId) → scheduled id end ≡ scheduled id st + count id fresh_ids
    end-count id =
        let s : count id (ids end.sorted) ≡ count id seen + ((if p == id then 1 else 0) + 0) =
          ap (count id) sorted_ids ∙ count-append id seen (p ∷ []) in
        let n : count id (ids end.next_tier) ≡ count id (ids st.next_tier) + count id fresh_ids =
          ap (count id) next_ids ∙ count-append id (ids st.next_tier) fresh_ids in
        let q : count id (ids end.queue) ≡ count id (ids rest) = queue_end id in
        let sn : count id seen ≡ count id (ids st.sorted) = refl in
        omega (arith, s, n, q, sn, queue_count id)
      where
        queue_end : (id : UniqueId) → count id (ids end.queue) ≡ count id (ids rest)
        queue_end id = unfold visit in refl

    unasked :
        (id : UniqueId)
        → contains id (ids slice) ≡ true
        → contains id (is_dependent_on dependencies slice p) ≡ false
        → pending seen (deps_of dependencies id) ≡ left id
    unasked id k e =
        let both = sym (contains-is_dependent_on dependencies slice p id) ∙ e in
        let asks : contains p (deps_of dependencies id) ≡ false = ground (arith, both, k) in
        ground (arith, pend id, asks)

    end_degrees :
        (id : UniqueId) → contains id (ids slice) ≡ true → end.in_degrees id ≡ pos (left id)
    unfolding visit
    end_degrees id k =
        relax-degrees slice (is_dependent_on dependencies slice p) st.in_degrees st.next_tier id
          (is_dependent_on-IsDistinct dependencies slice p distinct)
        ∙ elim (Bool-cases (contains id (is_dependent_on dependencies slice p))) [
          | inl e ↦ rw e (dependent id e).2
          | inr e ↦ rw e (inv.degrees id k ∙ ap pos (unasked id k e))
        ]

    left_end : (id : UniqueId) → left id ≡ pending (ids end.sorted) (deps_of dependencies id)
    left_end id = ap (λ s. pending s (deps_of dependencies id)) (sym sorted_ids)

    still_ready : (id : UniqueId) → 0 < scheduled id end → left id ≡ 0
    still_ready id h = elim (fresh_count id) [
      | inl z ↦ omega (arith, pend id, inv.ready id (omega (arith, end-count id, z, h)))
      | inr (one, e, z) ↦ z
    ]

    still_known : (id : UniqueId) → 0 < scheduled id end → contains id (ids slice) ≡ true
    still_known id h = elim (fresh_count id) [
      | inl z ↦ inv.known id (omega (arith, end-count id, z, h))
      | inr (one, e, z) ↦ (dependent id e).0
    ]

    still_once : (id : UniqueId) → scheduled id end ≤ 1
    still_once id = elim (fresh_count id) [
      | inl z ↦ omega (arith, end-count id, z, inv.once id)
      | inr (one, e, z) ↦
          let nothing : scheduled id st ≡ 0 =
            idle (scheduled id st) (inv.ready id) (dependent id e).1 in
          omega (arith, end-count id, one, nothing)
    ]
      where
        idle : (n : ℕ) {a b : ℕ} → (0 < n → a ≡ 0) → a ≡ suc b → n ≡ 0
        idle n ready more = ground (arith, ready, more)

    fresh_when :
        (id : UniqueId)
        → contains id (is_dependent_on dependencies slice p) ≡ true
        → left id ≡ 0
        → count id fresh_ids ≡ 1
    fresh_when id e z =
        count-filter (λ id. is_zero (decrement (st.in_degrees id))) id
          (is_dependent_on dependencies slice p)
        ∙ rw (ap is_zero ((dependent id e).2 ∙ ap pos z)) (
            count-distinct id (is_dependent_on dependencies slice p)
              (is_dependent_on-IsDistinct dependencies slice p distinct)
            ∙ rw e)

    still_complete :
        (id : UniqueId) → contains id (ids slice) ≡ true → left id ≡ 0 → 0 < scheduled id end
    still_complete id k z = elim (Bool-cases (contains id (is_dependent_on dependencies slice p))) [
      | inl e ↦ omega (arith, end-count id, fresh_when id e z)
      | inr e ↦ omega (arith, end-count id, inv.complete id k (unasked id k e ∙ z))
    ]

    -- Visiting the first object of the queue keeps the invariant.
    pub visit-IsInvariant : IsInvariant end
    visit-IsInvariant = record {
      degrees = λ id k. end_degrees id k ∙ ap pos (left_end id);
      once = still_once;
      ready = λ id h. sym (left_end id) ∙ still_ready id h;
      known = still_known;
      complete = λ id k z. still_complete id k (left_end id ∙ z);
      order = subst (Follows dependencies []) (sym sorted_ids) (
          Follows-snoc dependencies [] seen p inv.order
            (pending→Included seen (deps_of dependencies p) (inv.ready p p_waits)));
    }
