-- ===== src/Backup/Cycles/Edges.antt =====
-- backup/dependencies.go: which dependencies breakCircularDependencies removes.
use gpbackup.Base.{
  ◌≡◌, refl, sym, subst, ◌∙◌, inl, inr, Bool, true, false, not, ◌&&◌, ◌||◌, none, List, [], ◌∷◌,
  arith, if◌then◌else◌, Bool-cases, Option-cases, ◌==◌, nat_comparable, string_comparable, ==_sound,
  ==_sym, length,
}
use gpbackup.Base.Maps.{keys, lookup, put, delete, lookup-put, lookup-none}
use gpbackup.Base.Counting.{contains, remove, IsDistinct}
use gpbackup.Backup.Objects.{UniqueId, unique_id_comparable}
use gpbackup.Backup.Sort.{DependencyMap, deps_of}
use gpbackup.Backup.Cycles.{break_pair}

contains-remove :
    (a b : UniqueId) (xs : List UniqueId)
    → IsDistinct xs
    → contains b (remove a xs) ≡ (not (a == b) && contains b xs)
contains-remove a b [] d = ground arith
contains-remove a b (x ∷ xs) d = elim (Bool-cases (x == a)) [
  | inl same ↦ elim (Bool-cases (a == b)) [
    | inl at ↦ ground (
      arith,
      same,
      at,
      subst (λ z. contains z xs ≡ false) (==_sound x a same ∙ ==_sound a b at) d.0,
    )
    | inr off ↦
        ground (arith, same, off, subst (λ z. (z == b) ≡ false) (sym (==_sound x a same)) off)
  ]
  | inr other ↦ elim (Bool-cases (a == b)) [
    | inl at ↦ ground (
      arith,
      other,
      at,
      contains-remove a b xs d.1,
      subst (λ z. (x == z) ≡ false) (==_sound a b at) other,
    )
    | inr off ↦ ground (arith, other, off, contains-remove a b xs d.1)
  ]
]

remove-IsDistinct : (a : UniqueId) (xs : List UniqueId) → IsDistinct xs → IsDistinct (remove a xs)
remove-IsDistinct a [] d = tt
remove-IsDistinct a (x ∷ xs) d = elim (Bool-cases (x == a)) [
  | inl same ↦ rw same d.1
  | inr other ↦
      rw other (contains-remove a x xs d.1 ∙ ground (arith, d.0), remove-IsDistinct a xs d.1)
]

-- Each object stands once in the map, and each of its dependencies once in its set.
unfoldable pub IsMap : DependencyMap → Type 0
IsMap m = IsDistinct (keys m) × ((id : UniqueId) → IsDistinct (deps_of m id))

-- One dependency fewer.
unfoldable pub Drops : UniqueId → UniqueId → (before after : DependencyMap) → Type 0
Drops entry dep before after =
    IsMap after
    × ((id d : UniqueId)
        → contains d (deps_of after id)
          ≡ (contains d (deps_of before id) && not (dep == id && entry == d)))

single :
    (entry d : UniqueId) (deps : List UniqueId)
    → contains entry deps ≡ true
    → (length deps == 1) ≡ true
    → contains d deps ≡ (entry == d)
single entry d [] h one = ground arith
single entry d (x ∷ y ∷ deps) h one = absurd (ground arith)
single entry d (x ∷ []) h one =
    ground (arith, subst (λ z. (x == d) ≡ (z == d)) (==_sound x entry (ground (arith, h))) refl)

deps_of-put :
    (dep id : UniqueId) (deps : List UniqueId) (m : DependencyMap)
    → deps_of (put dep deps m) id ≡ (if dep == id then deps else deps_of m id)
deps_of-put dep id deps m = rw (deps_of, lookup-put dep id deps m) (ground arith)

contains-keys-put :
    (k dep : UniqueId) (deps : List UniqueId) (m : DependencyMap)
    → contains k (keys (put dep deps m)) ≡ (dep == k || contains k (keys m))
contains-keys-put k dep deps [] = ground arith
contains-keys-put k dep deps ((j, w) ∷ m) = elim (Bool-cases (j == dep)) [
  | inl same ↦ ground (arith, same, subst (λ z. (j == k) ≡ (z == k)) (==_sound j dep same) refl)
  | inr other ↦ ground (arith, other, contains-keys-put k dep deps m)
]

keys-put-IsDistinct :
    (dep : UniqueId) (deps : List UniqueId) (m : DependencyMap)
    → IsDistinct (keys m)
    → IsDistinct (keys (put dep deps m))
keys-put-IsDistinct dep deps [] d = (refl, tt)
keys-put-IsDistinct dep deps ((j, w) ∷ m) d = elim (Bool-cases (j == dep)) [
  | inl same ↦ rw same (subst (λ z. contains z (keys m) ≡ false) (==_sound j dep same) d.0, d.1)
  | inr other ↦ rw other (
    contains-keys-put j dep deps m ∙ ground (arith, d.0, ==_sym j dep, other),
    keys-put-IsDistinct dep deps m d.1,
  )
]

contains-keys-delete :
    (k dep : UniqueId) (m : DependencyMap)
    → contains k (keys m) ≡ false
    → contains k (keys (delete dep m)) ≡ false
contains-keys-delete k dep [] h = refl
contains-keys-delete k dep ((j, w) ∷ m) h = ground (arith, h, contains-keys-delete k dep m)

keys-delete-IsDistinct :
    (dep : UniqueId) (m : DependencyMap) → IsDistinct (keys m) → IsDistinct (keys (delete dep m))
keys-delete-IsDistinct dep [] d = tt
keys-delete-IsDistinct dep ((j, w) ∷ m) d = elim (Bool-cases (j == dep)) [
  | inl same ↦ rw same d.1
  | inr other ↦ rw other (contains-keys-delete j dep m d.0, keys-delete-IsDistinct dep m d.1)
]

deps_of-delete :
    (dep id : UniqueId) (m : DependencyMap)
    → IsDistinct (keys m)
    → deps_of (delete dep m) id ≡ (if dep == id then [] else deps_of m id)
deps_of-delete dep id [] d = ground arith
deps_of-delete dep id ((j, w) ∷ m) d = elim (Bool-cases (j == dep)) [
  | inl same ↦
      let absent =
        lookup-none dep m (subst (λ z. contains z (keys m) ≡ false) (==_sound j dep same) d.0) in
      elim (Bool-cases (dep == id)) [
        | inl at ↦
            ground (arith, same, at, subst (λ z. lookup z m ≡ none) (==_sound dep id at) absent)
        | inr off ↦
            ground
              (arith, same, off, subst (λ z. (z == id) ≡ false) (sym (==_sound j dep same)) off)
      ]
  | inr other ↦ elim (Bool-cases (j == id)) [
    | inl at ↦ ground (
      arith,
      other,
      at,
      deps_of-delete dep id m d.1,
      ==_sym dep j,
      subst (λ z. (dep == j) ≡ (dep == z)) (==_sound j id at) refl,
    )
    | inr off ↦ ground (arith, other, off, deps_of-delete dep id m d.1)
  ]
]

-- Nothing to drop.
drop_none :
    (entry dep : UniqueId) (m : DependencyMap) (id d : UniqueId)
    → contains entry (deps_of m dep) ≡ false
    → contains d (deps_of m id) ≡ (contains d (deps_of m id) && not (dep == id && entry == d))
drop_none entry dep m id d h = elim (Bool-cases (dep == id)) [
  | inr off ↦ ground (arith, off)
  | inl at ↦ elim (Bool-cases (entry == d)) [
    | inr other ↦ ground (arith, at, other)
    | inl same ↦ ground (
      arith,
      at,
      same,
      subst (λ z. contains z (deps_of m id) ≡ false) (==_sound entry d same)
          (subst (λ z. contains entry (deps_of m z) ≡ false) (==_sound dep id at) h),
    )
  ]
]

-- A set of `dep` without `entry` in place of its set.
drop_one :
    (entry dep : UniqueId) (m : DependencyMap) (fewer : List UniqueId) (id d : UniqueId)
    → ((e : UniqueId) → contains e fewer ≡ (not (entry == e) && contains e (deps_of m dep)))
    → contains d (if dep == id then fewer else deps_of m id)
      ≡ (contains d (deps_of m id) && not (dep == id && entry == d))
drop_one entry dep m fewer id d h = elim (Bool-cases (dep == id)) [
  | inr off ↦ ground (arith, off)
  | inl at ↦ ground (
    arith,
    at,
    h d,
    subst (λ z. contains d (deps_of m dep) ≡ contains d (deps_of m z)) (==_sound dep id at) refl,
  )
]

if-IsDistinct :
    (b : Bool) (xs ys : List UniqueId)
    → IsDistinct xs
    → IsDistinct ys
    → IsDistinct (if b then xs else ys)
if-IsDistinct true xs ys dx dy = dx
if-IsDistinct false xs ys dx dy = dy

pub break_pair-Drops :
    (entry dep : UniqueId) (m : DependencyMap)
    → IsMap m
    → Drops entry dep m (break_pair entry dep m)
unfolding break_pair Drops IsMap
break_pair-Drops entry dep m (distinct, sets) = elim (Option-cases (lookup dep m)) [
  | inl absent ↦
      let empty : contains entry (deps_of m dep) ≡ false = rw (deps_of, absent) refl in
      rw (absent, break_pair) ((distinct, sets), λ id d. drop_none entry dep m id d empty)
  | inr (deps, present) ↦
      let full : deps_of m dep ≡ deps = rw (deps_of, present) refl in
      elim (Bool-cases (contains entry deps)) [
        | inr other ↦
            rw (present, other, break_pair)
              ((distinct, sets), λ id d. drop_none entry dep m id d (rw full other))
        | inl depends ↦ elim (Bool-cases (length deps == 1)) [
          | inl one ↦
              rw (present, depends, one, break_pair)
                (
                  (
                    keys-delete-IsDistinct dep m distinct,
                    λ id.
                        rw (deps_of-delete dep id m distinct)
                          (if-IsDistinct (dep == id) [] (deps_of m id) tt (sets id)),
                  ),
                  λ id d. rw (deps_of-delete dep id m distinct) (
                      drop_one entry dep m [] id d
                        (λ e. rw full (ground (arith, single entry e deps depends one)))),
                )
          | inr more ↦
              rw (present, depends, more, break_pair)
                (
                  (
                    keys-put-IsDistinct dep (remove entry deps) m distinct,
                    λ id. rw (deps_of-put dep id (remove entry deps) m) (
                        if-IsDistinct (dep == id) (remove entry deps) (deps_of m id)
                          (remove-IsDistinct entry deps (subst IsDistinct full (sets dep)))
                          (sets id)),
                  ),
                  λ id d. rw (deps_of-put dep id (remove entry deps) m) (
                      drop_one entry dep m (remove entry deps) id d (λ e.
                        rw full (contains-remove entry e deps (subst IsDistinct full (sets dep))))),
                )
        ]
      ]
]
