-- ===== src/Backup/Sort/Relax.antt =====
-- backup/dependencies.go: what the loop over the dependents of a visited object does.
use gpbackup.Base.{
  ℕ, suc, ◌+◌, slice, ◌≡◌, refl, sym, ap, ◌∙◌, inl, inr, true, false, ◌&&◌, some, List, [], ◌∷◌,
  ◌++◌, arith, if◌then◌else◌, Bool-cases, ◌==◌, nat_comparable, string_comparable, ==_refl,
  ==_sound, get_elem?, filter,
}
use gpbackup.Base.Counting.{contains, IsDistinct, Included}
use mathlib.Core.List.{append_assoc, append-nil}
use gpbackup.Base.Words.{ℤ, decrement, is_zero}
use gpbackup.Backup.Objects.{UniqueId, unique_id_comparable}
use gpbackup.Backup.Sort.{
  Sortable, ids, DependencyMap, deps_of, is_dependent_on, dependency_indexes, set_at, append_item,
  relax,
}

pub ids-append : (xs ys : List Sortable) → ids (xs ++ ys) ≡ ids xs ++ ids ys
ids-append [] ys = refl
ids-append (x ∷ xs) ys = ap (◌∷◌ x.unique_id) (ids-append xs ys)

indexed :
    (i : ℕ) (slice : List Sortable) (id : UniqueId)
    → contains id (ids slice) ≡ true
    → (j : ℕ) × (item : Sortable) × (dependency_indexes i slice id ≡ i + j)
      × (get_elem? slice j ≡ some item)
      × (item.unique_id ≡ id)
unfolding dependency_indexes
indexed i [] id h = cc
indexed i (item ∷ slice) id h = elim (Bool-cases (contains id (ids slice))) [
  | inl e ↦
      let (j, found, at, get, same) = indexed (i + 1) slice id e in
      (suc j, found, rw e (omega (arith, at)), get, same)
  | inr e ↦
      let same : (item.unique_id == id) ≡ true = ground (arith, h, e) in
      (0, item, rw (e, same) (omega arith), refl, ==_sound item.unique_id id same)
]

ids-append_item :
    (slice : List Sortable) (dep : UniqueId) (next : List Sortable)
    → contains dep (ids slice) ≡ true
    → ids (append_item slice dep next) ≡ ids next ++ dep ∷ []
ids-append_item slice dep next h =
    let (j, item, at, get, same) = indexed 0 slice dep h in
    let found : get_elem? slice (dependency_indexes 0 slice dep) ≡ some item =
      ap (get_elem? slice) (omega (arith, at)) ∙ get in
    rw (found, append_item) (ids-append next (item ∷ []) ∙ ap (λ z. ids next ++ z ∷ []) same)

-- Every dependent's degree goes down by one.
pub relax-degrees :
    (slice : List Sortable) (deps : List UniqueId) (degs : UniqueId → ℤ) (next : List Sortable)
    (id : UniqueId)
    → IsDistinct deps
    → (relax slice deps degs next).0 id
      ≡ (if contains id deps then decrement (degs id) else degs id)
unfolding relax
relax-degrees slice [] degs next id d = refl
relax-degrees slice (dep ∷ deps) degs next id d =
    relax-degrees slice deps (set_at dep (decrement (degs dep)) degs) _ id d.1
    ∙ elim (Bool-cases (dep == id)) [
      | inl e ↦
          let same = ==_sound dep id e in
          rw (e, sym (ap (λ z. contains z deps) same) ∙ d.0) (ap (λ z. decrement (degs z)) same)
      | inr e ↦ rw e
    ]

-- The dependents whose degree becomes zero come into the next tier.
pub relax-next_tier :
    (slice : List Sortable) (deps : List UniqueId) (degs : UniqueId → ℤ) (next : List Sortable)
    (f : UniqueId → ℤ)
    → IsDistinct deps
    → Included deps (ids slice)
    → ((id : UniqueId) → contains id deps ≡ true → f id ≡ decrement (degs id))
    → ids (relax slice deps degs next).1 ≡ ids next ++ filter (λ id. is_zero (f id)) deps
unfolding relax
relax-next_tier slice [] degs next f d inc same = sym (append-nil (ids next))
relax-next_tier slice (dep ∷ deps) degs next f d inc same =
    let here : f dep ≡ decrement (degs dep) = same dep (ground (arith, ==_refl dep)) in
    let later =
      relax-next_tier slice deps (set_at dep (decrement (degs dep)) degs)
        (if is_zero (decrement (degs dep)) then append_item slice dep next else next) f d.1
        (λ id h. inc id (ground (arith, h)))
        (λ id h. same id (ground (arith, h)) ∙ ap decrement (rw (ne dep id deps d.0 h))) in
    later ∙ elim (Bool-cases (is_zero (decrement (degs dep)))) [
      | inl z ↦
          rw
            (
              z,
              ap is_zero here ∙ z,
              ids-append_item slice dep next (inc dep (ground (arith, ==_refl dep))),
            )
            (append_assoc (ids next) (dep ∷ []) _)
      | inr z ↦ rw (z, ap is_zero here ∙ z)
    ]
  where
    ne :
        (a b : UniqueId) (xs : List UniqueId)
        → contains a xs ≡ false
        → contains b xs ≡ true
        → (a == b) ≡ false
    ne a b xs h k = elim (Bool-cases (a == b)) [
      | inl e ↦ absurd (ground (arith, ap (λ z. contains z xs) (==_sound a b e)))
      | inr e ↦ e
    ]

-- The dependents of an object are the objects of the slice that depend on it.
pub contains-is_dependent_on :
    (dependencies : DependencyMap) (slice : List Sortable) (p id : UniqueId)
    → contains id (is_dependent_on dependencies slice p)
      ≡ (contains id (ids slice) && contains p (deps_of dependencies id))
unfolding is_dependent_on
contains-is_dependent_on dependencies [] p id = refl
contains-is_dependent_on dependencies (item ∷ slice) p id =
    elim (Bool-cases (item.unique_id == id)) [
      | inl e ↦
          let same = ap (λ z. contains p (deps_of dependencies z)) (==_sound item.unique_id id e) in
          ground (arith, e, same, contains-is_dependent_on dependencies slice p id)
      | inr e ↦ ground (arith, e, contains-is_dependent_on dependencies slice p id)
    ]

pub is_dependent_on-IsDistinct :
    (dependencies : DependencyMap) (slice : List Sortable) (p : UniqueId)
    → IsDistinct (ids slice)
    → IsDistinct (is_dependent_on dependencies slice p)
unfolding is_dependent_on
is_dependent_on-IsDistinct dependencies [] p d = tt
is_dependent_on-IsDistinct dependencies (item ∷ slice) p d =
    elim (Bool-cases (contains p (deps_of dependencies item.unique_id))) [
      | inl e ↦ rw e (
        contains-is_dependent_on dependencies slice p item.unique_id ∙ rw d.0,
        is_dependent_on-IsDistinct dependencies slice p d.1,
      )
      | inr e ↦ rw e (is_dependent_on-IsDistinct dependencies slice p d.1)
    ]
