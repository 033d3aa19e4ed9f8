-- ===== src/Options.antt =====
-- options/flag.go: the flags of a command and the test for flags that exclude each other.
pub mod Exclusive
use gpbackup.Base.{
  ℕ, zero, suc, ◌+◌, ◌-◌, ◌*◌, ◌/◌, ◌%◌, ◌≤◌, ◌<◌, String, ◌<>◌, len, slice, ◌≡◌, refl, sym, ap,
  subst, ◌∙◌, ◌≢◌, ◌↔◌, ◌⊎◌, inl, inr, Bool, true, false, not, ◌&&◌, ◌||◌, Option, none, some, List,
  [], ◌∷◌, ◌++◌, map, arith, ltb, leb, nat_beq, if◌then◌else◌, nat_beq_iff, ltb→lt, lt→ltb, leb→le,
  Bool-cases, Option-cases, &&_left, &&_right, Comparable, ◌==◌, nat_comparable, string_comparable,
  ==_refl, ==_sound, ==_sym, length, is_empty, get_elem?, drop, filter, All, length-append,
  filter-append, All-append, All-map,
}
use gpbackup.Base.Results.{Outcome, ok, fatal, ◌>>=◌, ◌>>◌, fatal_if, >>-eq-ok}

-- A parsed flag set: which flags the user has given, and the value of each by its type.
pub record FlagSet : Type 0 where
  pub changed : String → Bool
  pub get_string : String → String
  pub get_int : String → ℕ
  pub get_bool : String → Bool

unfoldable pub num_set : FlagSet → List String → ℕ
num_set flags [] = 0
num_set flags (name ∷ names) = (if flags.changed name then 1 else 0) + num_set flags names

unfoldable pub check_exclusive_flags : FlagSet → List String → Outcome (Unit {0})
unfolding num_set
check_exclusive_flags flags names =
    fatal_if (ltb 1 (num_set flags names)) "The following flags may not be specified together"

-- The statements of a function, each of which may end the process.
abbrev pub all_ok : List (Outcome (Unit {0})) → Outcome (Unit {0})
all_ok [] = ok tt
all_ok (m ∷ ms) = m >> all_ok ms
