-- ===== src/Utils/FilterSet.antt =====
-- utils/set.go: include and exclude sets for filtering lists.
pub mod Laws
use gpbackup.Base.{
  ℕ, zero, suc, ◌+◌, ◌-◌, ◌*◌, ◌/◌, ◌%◌, ◌≤◌, ◌<◌, String, ◌<>◌, len, slice, ◌≡◌, refl, sym, ap,
  subst, ◌∙◌, ◌≢◌, ◌↔◌, ◌⊎◌, inl, inr, Bool, true, false, not, ◌&&◌, ◌||◌, Option, none, some, List,
  [], ◌∷◌, ◌++◌, map, arith, ltb, leb, nat_beq, if◌then◌else◌, nat_beq_iff, ltb→lt, lt→ltb, leb→le,
  Bool-cases, Option-cases, &&_left, &&_right, Comparable, ◌==◌, nat_comparable, string_comparable,
  ==_refl, ==_sound, ==_sym, length, is_empty, get_elem?, drop, filter, All, length-append,
  filter-append, All-append, All-map,
}
use gpbackup.Base.Counting.{contains}

-- `set` holds the keys of the Go map, each once.
pub record FilterSet : Type 0 where
  pub set : List String
  pub is_exclude : Bool
  pub always_matches_filter : Bool

-- `newSet.Set[item] = true`
abbrev pub put_item : String → List String → List String
put_item s xs = if contains s xs then xs else s ∷ xs

abbrev pub put_items : List String → List String → List String
put_items [] set = set
put_items (item ∷ list) set = put_items list (put_item item set)

unfoldable pub new_set : List String → FilterSet
new_set list = record { set = put_items list []; is_exclude = false; always_matches_filter = false }

unfoldable pub new_include_set : List String → FilterSet
new_include_set list = record (new_set list) { always_matches_filter = is_empty list }

unfoldable pub new_exclude_set : List String → FilterSet
new_exclude_set list = record (new_set list) {
  always_matches_filter = is_empty list;
  is_exclude = true;
}

unfoldable pub matches_filter : FilterSet → String → Bool
matches_filter s item =
    if s.always_matches_filter
    then true
    else if s.is_exclude
    then not (contains item s.set)
    else contains item s.set

unfoldable pub set_length : FilterSet → ℕ
set_length s = length s.set

-- The loop of `Equals`: every key of the one set is a key of the other.
abbrev pub all_in : List String → List String → Bool
all_in [] ys = true
all_in (x ∷ xs) ys = contains x ys && all_in xs ys

unfoldable pub equals : FilterSet → FilterSet → Bool
unfolding set_length
equals s s1 = if set_length s == set_length s1 then all_in s.set s1.set else false
