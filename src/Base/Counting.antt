-- ===== src/Base/Counting.antt =====
-- Membership and multiplicity by a computed equality, lists with no repetition, and the
-- pigeonhole lemmas that relate them to length.
use Prim.Native.Nat.{ℕ, suc, ◌+◌, ◌≤◌, ◌<◌}
use mathlib.Core.Path.{◌≡◌, refl, ap}
use mathlib.Core.Logic.{inl, inr}
use mathlib.Core.Bool.{Bool, true, false, ◌||◌}
use mathlib.Core.List.{List, [], ◌∷◌, ◌++◌}
use native.Mathlib.Omega.{arith}
use gpbackup.Base.Tests.{if◌then◌else◌, Bool-cases}
use gpbackup.Base.Equality.{Comparable, ◌==◌, ==_sound, ==_refl}
use gpbackup.Base.Lists.{length, filter}

module _ {ℓ} {A : Type ℓ} ⦃c : Comparable A⦄ where
  abbrev pub contains : A → List A → Bool
  contains a [] = false
  contains a (x ∷ xs) = x == a || contains a xs

  abbrev pub count : A → List A → ℕ
  count a [] = 0
  count a (x ∷ xs) = (if x == a then 1 else 0) + count a xs

  abbrev pub remove : A → List A → List A
  remove a [] = []
  remove a (x ∷ xs) = let rest = remove a xs in if x == a then xs else x ∷ rest

  abbrev pub IsDistinct : List A → Type 0
  IsDistinct [] = Unit
  IsDistinct (x ∷ xs) = (contains x xs ≡ false) × IsDistinct xs

  pub count-append : (a : A) (xs ys : List A) → count a (xs ++ ys) ≡ count a xs + count a ys
  count-append a [] ys = omega arith
  count-append a (x ∷ xs) ys = omega (arith, count-append a xs ys)

  pub contains-append :
      (a : A) (xs ys : List A) → contains a (xs ++ ys) ≡ (contains a xs || contains a ys)
  contains-append a [] ys = refl
  contains-append a (x ∷ xs) ys = ground (arith, contains-append a xs ys)

  pub contains→count : (a : A) (xs : List A) → contains a xs ≡ true → 0 < count a xs
  contains→count a [] h = ground arith
  contains→count a (x ∷ xs) h = ground (arith, contains→count a xs)

  pub count→contains : (a : A) (xs : List A) → 0 < count a xs → contains a xs ≡ true
  count→contains a [] h = absurd (omega arith)
  count→contains a (x ∷ xs) h = ground (arith, count→contains a xs)

  pub not-contains→count : (a : A) (xs : List A) → contains a xs ≡ false → count a xs ≡ 0
  not-contains→count a [] h = refl
  not-contains→count a (x ∷ xs) h = ground (arith, not-contains→count a xs)

  pub length-remove :
      (a : A) (xs : List A) → contains a xs ≡ true → length xs ≡ suc (length (remove a xs))
  length-remove a [] h = ground arith
  length-remove a (x ∷ xs) h = ground (arith, length-remove a xs)

  pub contains-remove_ne :
      (a b : A) (xs : List A)
      → contains b xs ≡ true
      → (a == b) ≡ false
      → contains b (remove a xs) ≡ true
  contains-remove_ne a b [] h n = ground arith
  contains-remove_ne a b (x ∷ xs) h n =
      ground (arith, contains-remove_ne a b xs, ==_sound x a, ==_sound x b, c.beq_iff a b)

  abbrev pub Included : List A → List A → Type ℓ
  Included xs ys = (a : A) → contains a xs ≡ true → contains a ys ≡ true

  pub ne_of_contains :
      (a b : A) (xs : List A) → contains a xs ≡ false → contains b xs ≡ true → (a == b) ≡ false
  ne_of_contains a b xs h k = elim (Bool-cases (a == b)) [
    | inl e ↦ absurd (ground (arith, ap (λ z. contains z xs) (==_sound a b e)))
    | inr n ↦ n
  ]

  -- Distinct items that all lie in `ys` are no more than `ys`.
  pub length-le_of_Included :
      (xs ys : List A) → IsDistinct xs → Included xs ys → length xs ≤ length ys
  length-le_of_Included [] ys d inc = omega arith
  length-le_of_Included (x ∷ xs) ys d inc = omega (
    arith,
    length-remove x ys (inc x (ground (arith, ==_refl x))),
    length-le_of_Included xs (remove x ys) d.1 (λ b h.
        contains-remove_ne x b ys (inc b (ground (arith, h))) (ne_of_contains x b xs d.0 h)),
  )

  -- When they are as many, `ys` holds nothing else.
  pub Included-of_length :
      (xs ys : List A) → IsDistinct xs → Included xs ys → length ys ≤ length xs → Included ys xs
  Included-of_length xs ys d inc le b h = elim (Bool-cases (contains b xs)) [
    | inl e ↦ e
    | inr e ↦ absurd (omega (arith, length-le_of_Included (b ∷ xs) ys (e, d) (larger e)))
  ]
    where
      larger : contains b xs ≡ false → Included (b ∷ xs) ys
      larger e a k = ground (arith, inc a, h, ap (λ z. contains z ys) {x = b} {y = a}, ==_sound b a)

  pub count-filter :
      (p : A → Bool) (a : A) (xs : List A) → count a (filter p xs) ≡ (if p a then count a xs else 0)
  count-filter p a [] = ground arith
  count-filter p a (x ∷ xs) = elim (Bool-cases (x == a)) [
    | inl same ↦ rw (==_sound x a same) (ground (arith, count-filter p a xs))
    | inr other ↦ ground (arith, count-filter p a xs)
  ]

  pub count-distinct :
      (a : A) (xs : List A) → IsDistinct xs → count a xs ≡ (if contains a xs then 1 else 0)
  count-distinct a [] d = refl
  count-distinct a (x ∷ xs) d = ground (
    arith,
    count-distinct a xs d.1,
    not-contains→count a xs,
    ap (λ z. contains z xs) {x = x} {y = a},
    ==_sound x a,
  )
