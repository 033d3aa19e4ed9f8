-- ===== src/Backup/Sort/Pending.antt =====
-- backup/dependencies.go: the dependencies that are not visited yet, and orders that respect all
-- of them.
use gpbackup.Base.{
  ℕ, ◌+◌, ◌≡◌, sym, ap, subst, ◌∙◌, inl, inr, false, List, [], ◌∷◌, ◌++◌, arith, if◌then◌else◌,
  Bool-cases, ◌==◌, nat_comparable, string_comparable, ==_sound, ==_sym,
}
use gpbackup.Base.Counting.{contains, IsDistinct, Included, contains-append}
use mathlib.Core.List.{append_assoc, append-nil}
use gpbackup.Backup.Objects.{UniqueId, unique_id_comparable}
use gpbackup.Backup.Sort.{DependencyMap, deps_of}

-- How many of the dependencies are not among the visited objects.
abbrev pub pending : List UniqueId → List UniqueId → ℕ
pending seen [] = 0
pending seen (d ∷ ds) = (if contains d seen then 0 else 1) + pending seen ds

-- Visiting `p` takes one off the pending dependencies of those that depend on it.
pub pending-snoc :
    (seen : List UniqueId) (p : UniqueId) (ds : List UniqueId)
    → IsDistinct ds
    → contains p seen ≡ false
    → pending seen ds ≡ pending (seen ++ p ∷ []) ds + (if contains p ds then 1 else 0)
pending-snoc seen p [] d n = omega arith
pending-snoc seen p (x ∷ ds) d n = elim (Bool-cases (x == p)) [
  | inl e ↦
      let same = ==_sound x p e in
      let sn = ap (λ z. contains z seen) same in
      let dn = ap (λ z. contains z ds) same in
      ground (
        arith,
        e,
        n,
        d.0,
        sn,
        dn,
        ==_sym p x,
        contains-append x seen (p ∷ []),
        pending-snoc seen p ds d.1 n,
      )
  | inr e ↦
      ground (arith, e, ==_sym p x, contains-append x seen (p ∷ []), pending-snoc seen p ds d.1 n)
]

pub pending→Included : (seen ds : List UniqueId) → pending seen ds ≡ 0 → Included ds seen
pending→Included seen [] h = λ a k. ground arith
pending→Included seen (d ∷ ds) h = λ a k. elim (Bool-cases (d == a)) [
  | inl e ↦ ap (λ z. contains z seen) (sym (==_sound d a e)) ∙ ground (arith, h)
  | inr e ↦ pending→Included seen ds (omega (arith, h)) a (ground (arith, k, e))
]

-- In a list behind `seen`, every object stands behind its dependencies.
abbrev pub Follows : DependencyMap → List UniqueId → List UniqueId → Type 0
Follows dependencies seen [] = Unit
Follows dependencies seen (x ∷ xs) =
    Included (deps_of dependencies x) seen × Follows dependencies (seen ++ x ∷ []) xs

pub Follows-snoc :
    (dependencies : DependencyMap) (seen xs : List UniqueId) (p : UniqueId)
    → Follows dependencies seen xs
    → Included (deps_of dependencies p) (seen ++ xs)
    → Follows dependencies seen (xs ++ p ∷ [])
Follows-snoc dependencies seen [] p f inc =
    (subst (Included (deps_of dependencies p)) (append-nil seen) inc, tt)
Follows-snoc dependencies seen (x ∷ xs) p f inc = (
  f.0,
  Follows-snoc dependencies (seen ++ x ∷ []) xs p f.1
      (subst (Included (deps_of dependencies p)) (sym (append_assoc seen (x ∷ []) xs)) inc),
)
