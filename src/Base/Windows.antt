-- ===== src/Base/Windows.antt =====
-- The front of a queue: the items that are in work when `n` may be at once.
use Prim.Native.Nat.{ℕ, zero, suc}
use mathlib.Core.Path.{◌≡◌, refl, ap}
use mathlib.Core.Bool.{true, false}
use mathlib.Core.Option.{none, some}
use mathlib.Core.List.{List, [], ◌∷◌, ◌++◌}
use native.Mathlib.Omega.{arith}
use gpbackup.Base.Equality.{Comparable, ==_refl}
use gpbackup.Base.Lists.{get_elem?, take}
use gpbackup.Base.Counting.{contains, IsDistinct, ne_of_contains}

module _ {ℓ} {A : Type ℓ} ⦃c : Comparable A⦄ where
  pub take-nil : (n : ℕ) → take {A = A} n [] ≡ []
  take-nil zero = refl
  take-nil (suc n) = refl

  pub take-last :
      (n : ℕ) (xs : List A) (x : A)
      → get_elem? xs n ≡ some x
      → take n xs ++ x ∷ [] ≡ take (suc n) xs
  take-last zero [] x h = ground arith
  take-last (suc n) [] x h = ground arith
  take-last zero (y ∷ ys) x h = ground arith
  take-last (suc n) (y ∷ ys) x h = ap {B = List A} (λ r. y ∷ r) (take-last n ys x h)

  pub take-all : (n : ℕ) (xs : List A) → get_elem? xs n ≡ none → take n xs ≡ take (suc n) xs
  take-all zero [] h = refl
  take-all (suc n) [] h = refl
  take-all zero (y ∷ ys) h = ground arith
  take-all (suc n) (y ∷ ys) h = ap {B = List A} (λ r. y ∷ r) (take-all n ys h)

  pub contains-get_elem? :
      (n : ℕ) (xs : List A) (x : A) → get_elem? xs n ≡ some x → contains x xs ≡ true
  contains-get_elem? n [] x h = ground arith
  contains-get_elem? zero (y ∷ ys) x h = ground (arith, ==_refl y)
  contains-get_elem? (suc n) (y ∷ ys) x h = ground (arith, contains-get_elem? n ys x h)

  pub contains-take :
      (n : ℕ) (xs : List A) (x : A)
      → get_elem? xs n ≡ some x
      → IsDistinct xs
      → contains x (take n xs) ≡ false
  contains-take zero xs x h d = refl
  contains-take (suc n) [] x h d = refl
  contains-take (suc n) (y ∷ ys) x h d =
      ground
        (arith, contains-take n ys x h d.1, ne_of_contains y x ys d.0 (contains-get_elem? n ys x h))
