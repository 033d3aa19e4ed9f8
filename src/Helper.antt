-- ===== src/Helper.antt =====
-- helper/: the agents that run on each segment host, between the COPY commands of the server and
-- the data file of a backup or a plugin.
pub mod Backup
pub mod Reader
pub mod Restore
pub mod RoundTrip
use Prim.Native.String.{String}
use mathlib.Core.Path.{◌≡◌, refl}
use mathlib.Core.Logic.{◌⊎◌, inl, inr}

-- The errors that the agents tell apart. The texts that `errors.Wrap` and `errors.Join` put around
-- an error are left out: `failed` has a short form of the message.
pub data IoError : Type 0 where
  eof : IoError
  failed : String → IoError

-- What a function returns beside its error.
pub data Result {ℓ} (A : Type ℓ) : Type ℓ where
  value : A → Result A
  error : IoError → Result A

pub Result-cases {ℓ} :
    {A : Type ℓ} (r : Result A) → ((a : A) × (r ≡ value a)) ⊎ ((e : IoError) × (r ≡ error e))
Result-cases (value a) = inl (a, refl)
Result-cases (error e) = inr (e, refl)

pub value_inj {ℓ} : {A : Type ℓ} (a b : A) → value a ≡ value b → a ≡ b
value_inj a b h = cc
