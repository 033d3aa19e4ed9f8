-- ===== src/Options/Exclusive.antt =====
-- options/flag.go: what passes a test for flags that exclude each other.
use gpbackup.Base.{
  ◌≤◌, String, ◌≡◌, refl, ◌↔◌, inl, inr, Bool, true, false, not, ◌&&◌, List, [], ◌∷◌, arith, ltb,
  Bool-cases, nat_comparable, string_comparable, All,
}
use gpbackup.Base.Results.{Outcome, ok, fatal_if, >>-eq-ok}
use gpbackup.Options.{all_ok, FlagSet, num_set, check_exclusive_flags}

-- No flag that the user has given stands in front of another one.
abbrev pub AtMostOne : FlagSet → List String → Type 0
AtMostOne flags [] = Unit
AtMostOne flags (name ∷ names) =
    (flags.changed name ≡ true → All (λ other. flags.changed other ≡ false) names)
    × AtMostOne flags names

none_set :
    (flags : FlagSet) (names : List String)
    → (num_set flags names ≡ 0) ↔ All (λ other. flags.changed other ≡ false) names
unfolding num_set
none_set flags [] = (λ h. tt, λ h. refl)
none_set flags (n ∷ ns) = elim (Bool-cases (flags.changed n)) [
  | inl e ↦ (λ h. absurd (ground (arith, h, e)), λ h. absurd (ground (arith, h.0, e)))
  | inr e ↦ (
    λ h. (e, (none_set flags ns).0 (ground (arith, h, e))),
    λ h. rw e (ground (arith, (none_set flags ns).1 h.1)),
  )
]

at_most_one :
    (flags : FlagSet) (names : List String) → (num_set flags names ≤ 1) ↔ AtMostOne flags names
unfolding num_set
at_most_one flags [] = (λ h. tt, λ h. omega arith)
at_most_one flags (n ∷ ns) = elim (Bool-cases (flags.changed n)) [
  | inl e ↦ (
    λ h.
        let nothing : num_set flags ns ≡ 0 = ground (arith, h, e) in
        (λ c. (none_set flags ns).0 nothing, (at_most_one flags ns).0 (omega arith)),
    λ h. rw e (omega (arith, (none_set flags ns).1 (h.0 e))),
  )
  | inr e ↦ (
    λ h. (λ c. absurd (ground (arith, c, e)), (at_most_one flags ns).0 (ground (arith, h, e))),
    λ h. rw e (omega (arith, (at_most_one flags ns).1 h.1)),
  )
]

pub fatal_if-ok : (b : Bool) (e : String) → (fatal_if b e ≡ ok tt) ↔ (b ≡ false)
fatal_if-ok true e = (λ h. cc, λ h. cc)
fatal_if-ok false e = (λ h. refl, λ h. refl)

-- A guard that demands `b` of whoever asks for `a`.
pub requires : (a b : Bool) (e : String) → (fatal_if (a && not b) e ≡ ok tt) ↔ (a ≡ true → b ≡ true)
requires a b e = (
  λ h. let g = (fatal_if-ok (a && not b) e).0 h in ground (arith, g),
  λ h. (fatal_if-ok (a && not b) e).1 (ground (arith, h)),
)

-- What a list of statements accepts.
pub record Passes {ℓ} (ms : List (Outcome (Unit {0}))) (P : Type ℓ) : Type ℓ where
  pub iff : (all_ok ms ≡ ok tt) ↔ P

pub all_ok-cons {ℓ κ} :
    {P : Type ℓ} {Q : Type κ} {m : Outcome (Unit {0})} {ms : List (Outcome (Unit {0}))}
    → (m ≡ ok tt) ↔ P
    → Passes ms Q
    → Passes (m ∷ ms) (P × Q)
all_ok-cons {m} {ms} p q = record {
  iff = (
    λ h. let (a, b) = >>-eq-ok m (all_ok ms) tt h in (p.0 a, q.iff.0 b),
    λ h. rw (p.1 h.0) (q.iff.1 h.1),
  );
}

pub all_ok-nil : Passes [] (Unit {0})
all_ok-nil = record { iff = (λ h. tt, λ h. refl) }

-- The test passes exactly when the user has given at most one of the flags.
pub check_exclusive_flags_lem :
    (flags : FlagSet) (names : List String)
    → (check_exclusive_flags flags names ≡ ok tt) ↔ AtMostOne flags names
unfolding check_exclusive_flags
check_exclusive_flags_lem flags names = (
  λ h.
      (at_most_one flags names).0
        (ground (arith, (fatal_if-ok (ltb 1 (num_set flags names)) _).0 h)),
  λ h.
      (fatal_if-ok (ltb 1 (num_set flags names)) _).1
        (ground (arith, (at_most_one flags names).1 h)),
)
