-- ===== src/Base/Results.antt =====
-- How a function ends. `gplog.Fatal` logs a message and ends the process: nothing after it runs.
use mathlib.Core.Path.{◌≡◌, refl}
use mathlib.Core.Bool.{Bool, true, false}
use Prim.Native.String.{String}
use mathlib.Core.List.{List, ◌∷◌, ◌++◌}
use native.Mathlib.Omega.{arith}

pub data Outcome {ℓ} (A : Type ℓ) : Type ℓ where
  ok : A → Outcome A
  fatal : String → Outcome A

infixl 5 ◌>>=◌ ◌>>◌
abbrev pub ◌>>=◌ {ℓ κ} : {A : Type ℓ} {B : Type κ} → Outcome A → (A → Outcome B) → Outcome B
ok a >>= f = f a
fatal e >>= f = fatal e

abbrev pub ◌>>◌ {ℓ} : {B : Type ℓ} → Outcome (Unit {0}) → Outcome B → Outcome B
m >> k = m >>= λ _. k

-- `if bad { gplog.Fatal(...) }`
abbrev pub fatal_if : Bool → String → Outcome (Unit {0})
fatal_if true e = fatal e
fatal_if false e = ok tt

pub >>-eq-ok {ℓ} :
    {B : Type ℓ} (m : Outcome (Unit {0})) (k : Outcome B) (b : B)
    → (m >> k) ≡ ok b
    → (m ≡ ok tt) × (k ≡ ok b)
>>-eq-ok (ok a) k b h = (refl, h)
>>-eq-ok (fatal e) k b h = cc

-- `out = append(out, x)` in a loop whose body may fail: `x` first, then the later rounds.
abbrev pub cons_outcome {ℓ} : {A : Type ℓ} → Outcome A → Outcome (List A) → Outcome (List A)
cons_outcome (ok x) (ok xs) = ok (x ∷ xs)
cons_outcome (ok x) (fatal e) = fatal e
cons_outcome (fatal e) rest = fatal e

pub cons_outcome-append {ℓ} :
    {A : Type ℓ} (m : Outcome A) (r r' : Outcome (List A)) (ss ts : List A)
    → cons_outcome m r ≡ ok ss
    → ((rs : List A) → r ≡ ok rs → r' ≡ ok (rs ++ ts))
    → cons_outcome m r' ≡ ok (ss ++ ts)
cons_outcome-append (ok x) (ok xs) r' ss ts h k = rw (k xs refl) (ground arith)
cons_outcome-append (ok x) (fatal e) r' ss ts h k = cc
cons_outcome-append (fatal e) (ok xs) r' ss ts h k = cc
cons_outcome-append (fatal e) (fatal e') r' ss ts h k = cc

-- What a sequence that ends well has passed through.
pub >>=-eq-ok {ℓ κ} :
    {A : Type ℓ} {B : Type κ} (first : Outcome A) (next : A → Outcome B) {result : B}
    → (first >>= next) ≡ ok result
    → (value : A) × (first ≡ ok value) × (next value ≡ ok result)
>>=-eq-ok (fatal message) next ends = cc
>>=-eq-ok (ok value) next ends = (value, refl, ends)
