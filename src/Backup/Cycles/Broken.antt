-- ===== src/Backup/Cycles/Broken.antt =====
-- backup/dependencies.go: no type and function depend on each other behind
-- breakCircularDependencies.
use gpbackup.Base.{
  ◌≡◌, refl, subst, ◌∙◌, inl, inr, Bool, true, false, not, ◌&&◌, ◌||◌, List, [], ◌∷◌, map, arith,
  Bool-cases, ◌==◌, nat_comparable, string_comparable, ==_sound,
}
use gpbackup.Base.Maps.{keys}
use gpbackup.Base.Counting.{contains, IsDistinct}
use gpbackup.Backup.Objects.{UniqueId, unique_id_comparable}
use gpbackup.Backup.Sort.{DependencyMap, deps_of}
use gpbackup.Backup.Cycles.{
  pg_type_oid, pg_proc_oid, break_pair, break_entry, break_entries, break_circular_dependencies,
}
use gpbackup.Backup.Cycles.Edges.{IsMap, Drops, break_pair-Drops}

-- Whether one entry makes the loop drop the dependency of `id` on `d`.
drops_for : UniqueId → List UniqueId → (id d : UniqueId) → Bool
drops_for entry deps id d =
    entry == d
    && (entry.class_id == pg_type_oid && (id.class_id == pg_proc_oid && contains id deps))

break_entry-edges :
    (entry : UniqueId) (deps : List UniqueId) (m : DependencyMap)
    → IsMap m
    → IsMap (break_entry entry deps m)
      × ((id d : UniqueId)
          → contains d (deps_of (break_entry entry deps m) id)
            ≡ (contains d (deps_of m id) && not (drops_for entry deps id d)))
unfolding break_entry drops_for Drops
break_entry-edges entry [] m map = (map, λ id d. ground arith)
break_entry-edges entry (dep ∷ deps) m map =
    elim (Bool-cases (entry.class_id == pg_type_oid && dep.class_id == pg_proc_oid)) [
      | inl breaks ↦
          let (dropped, edges) = break_pair-Drops entry dep m map in
          let (all, later) = break_entry-edges entry deps (break_pair entry dep m) dropped in
          rw (breaks, break_entry) (all, λ id d. later id d ∙ rw (edges id d) (step breaks id d))
      | inr keeps ↦
          let (all, later) = break_entry-edges entry deps m map in
          rw (keeps, break_entry) (all, λ id d. later id d ∙ stay keeps id d)
    ]
  where
    step :
        (entry.class_id == pg_type_oid && dep.class_id == pg_proc_oid) ≡ true
        → (id d : UniqueId)
        → ((contains d (deps_of m id) && not (dep == id && entry == d))
            && not (
                entry == d
                && (entry.class_id == pg_type_oid
                    && (id.class_id == pg_proc_oid && contains id deps))))
          ≡ (contains d (deps_of m id)
              && not (
                  entry == d
                  && (entry.class_id == pg_type_oid
                      && (id.class_id == pg_proc_oid && (dep == id || contains id deps)))))
    step breaks id d = elim (Bool-cases (dep == id)) [
      | inr off ↦ ground (arith, off)
      | inl at ↦ ground (
        arith,
        at,
        breaks,
        subst (λ z. (dep.class_id == pg_proc_oid) ≡ (z.class_id == pg_proc_oid))
            (==_sound dep id at) refl,
      )
    ]

    stay :
        (entry.class_id == pg_type_oid && dep.class_id == pg_proc_oid) ≡ false
        → (id d : UniqueId)
        → (contains d (deps_of m id)
            && not (
                entry == d
                && (entry.class_id == pg_type_oid
                    && (id.class_id == pg_proc_oid && contains id deps))))
          ≡ (contains d (deps_of m id)
              && not (
                  entry == d
                  && (entry.class_id == pg_type_oid
                      && (id.class_id == pg_proc_oid && (dep == id || contains id deps)))))
    stay keeps id d = elim (Bool-cases (dep == id)) [
      | inr off ↦ ground (arith, off)
      | inl at ↦ ground (
        arith,
        at,
        keeps,
        subst (λ z. (dep.class_id == pg_proc_oid) ≡ (z.class_id == pg_proc_oid))
            (==_sound dep id at) refl,
      )
    ]

drops : DependencyMap → (id d : UniqueId) → Bool
unfolding drops_for
drops [] id d = false
drops ((entry, deps) ∷ later) id d = drops_for entry deps id d || drops later id d

break_entries-edges :
    (entries m : DependencyMap)
    → IsMap m
    → ((id d : UniqueId)
        → contains d (deps_of (break_entries entries m) id)
          ≡ (contains d (deps_of m id) && not (drops entries id d)))
unfolding break_entries drops
break_entries-edges [] m map = λ id d. ground arith
break_entries-edges ((entry, deps) ∷ later) m map =
    let (broken, edges) = break_entry-edges entry deps m map in
    λ id d.
      break_entries-edges later (break_entry entry deps m) broken id d
      ∙ rw (edges id d) (ground arith)

drops-absent :
    (entries : DependencyMap) (id d : UniqueId)
    → contains d (keys entries) ≡ false
    → drops entries id d ≡ false
unfolding drops drops_for
drops-absent [] id d h = refl
drops-absent ((entry, deps) ∷ later) id d h = ground (arith, h, drops-absent later id d)

drops-deps_of :
    (entries : DependencyMap) (id d : UniqueId)
    → IsDistinct (keys entries)
    → drops entries id d ≡ (
        d.class_id == pg_type_oid
        && (id.class_id == pg_proc_oid && contains id (deps_of entries d)))
unfolding drops drops_for
drops-deps_of [] id d distinct = ground arith
drops-deps_of ((entry, deps) ∷ later) id d distinct = elim (Bool-cases (entry == d)) [
  | inl at ↦ ground (
    arith,
    at,
    drops-absent later id d
        (subst (λ z. contains z (keys later) ≡ false) (==_sound entry d at) distinct.0),
    subst (λ z. (entry.class_id == pg_type_oid) ≡ (z.class_id == pg_type_oid)) (==_sound entry d at)
        refl,
  )
  | inr off ↦ ground (arith, off, drops-deps_of later id d distinct.1)
]

-- Exactly those dependencies are removed that a function has on a type which depends on the
-- function; all the others stay. Each object stands once in the map, and each of its dependencies
-- once in its set.
pub break_circular_dependencies-edges :
    (dependencies : DependencyMap) (id d : UniqueId)
    → IsMap dependencies
    → contains d (deps_of (break_circular_dependencies dependencies) id) ≡ (
        contains d (deps_of dependencies id)
        && not (
            d.class_id == pg_type_oid
            && (id.class_id == pg_proc_oid && contains id (deps_of dependencies d))))
unfolding break_circular_dependencies IsMap
break_circular_dependencies-edges dependencies id d map =
    break_entries-edges dependencies dependencies map id d
    ∙ rw (drops-deps_of dependencies id d map.0) refl
