-- ===== src/Utils/FilterSet/Laws.antt =====
-- utils/set.go: what the sets accept, and when two sets are equal.
use gpbackup.Base.{
  String, ◌≡◌, refl, ◌∙◌, ◌↔◌, inl, inr, true, false, not, ◌||◌, List, [], ◌∷◌, arith,
  if◌then◌else◌, Bool-cases, &&_left, &&_right, ◌==◌, nat_comparable, string_comparable, ==_refl,
  ==_sound, length, is_empty,
}
use gpbackup.Base.Counting.{
  contains, IsDistinct, Included, length-le_of_Included, Included-of_length,
}
use gpbackup.Utils.FilterSet.{
  put_item, put_items, new_set, new_include_set, new_exclude_set, matches_filter, all_in, equals,
}

contains-put_item :
    (a s : String) (xs : List String) → contains a (put_item s xs) ≡ (s == a || contains a xs)
contains-put_item a s xs = elim (Bool-cases (contains s xs)) [
  | inl e ↦ rw e (elim (Bool-cases (s == a)) [
    | inl same ↦ rw same (rw (==_sound s a same) at e)
    | inr other ↦ rw other
  ])
  | inr e ↦ rw e
]

pub contains-put_items :
    (a : String) (list set : List String)
    → contains a (put_items list set) ≡ (contains a list || contains a set)
contains-put_items a [] set = refl
contains-put_items a (item ∷ list) set =
    contains-put_items a list (put_item item set) ∙ ground (arith, contains-put_item a item set)

pub put_items-IsDistinct :
    (list set : List String) → IsDistinct set → IsDistinct (put_items list set)
put_items-IsDistinct [] set d = d
put_items-IsDistinct (item ∷ list) set d =
    put_items-IsDistinct list (put_item item set) (put_item-IsDistinct item set d)
  where
    put_item-IsDistinct :
        (s : String) (xs : List String) → IsDistinct xs → IsDistinct (put_item s xs)
    put_item-IsDistinct s xs d' = elim (Bool-cases (contains s xs)) [
      | inl e ↦ rw e d'
      | inr e ↦ rw e (e, d')
    ]

-- A set built from a list holds the items of the list.
pub contains-new_set :
    (a : String) (list : List String) → contains a (new_set list).set ≡ contains a list
unfolding new_set
contains-new_set a list = contains-put_items a list [] ∙ ground arith

pub matches_filter-new_set :
    (list : List String) (item : String) → matches_filter (new_set list) item ≡ contains item list
unfolding matches_filter new_set
matches_filter-new_set list item = contains-new_set item list

pub matches_filter-include :
    (list : List String) (item : String)
    → matches_filter (new_include_set list) item ≡ (is_empty list || contains item list)
unfolding matches_filter new_include_set new_set
matches_filter-include list item = ground (arith, contains-put_items item list [])

pub matches_filter-exclude :
    (list : List String) (item : String)
    → matches_filter (new_exclude_set list) item ≡ (is_empty list || not (contains item list))
unfolding matches_filter new_exclude_set new_set
matches_filter-exclude list item = ground (arith, contains-put_items item list [])

-- An include set accepts the listed items, an exclude set the others; from an empty list both
-- accept everything.
pub matches_filter_lem :
    (list : List String) (item : String)
    → (matches_filter (new_include_set list) item ≡ (is_empty list || contains item list))
      × (matches_filter (new_exclude_set list) item ≡ (is_empty list || not (contains item list)))
matches_filter_lem list item = (matches_filter-include list item, matches_filter-exclude list item)

contains_head_cases :
    (x : String) (xs ys : List String)
    → contains x ys ≡ true
    → Included xs ys
    → Included (x ∷ xs) ys
contains_head_cases x xs ys h inc b k = elim (Bool-cases (x == b)) [
  | inl e ↦ rw (==_sound x b e) at h
  | inr n ↦ inc b (rw n at k)
]

all_in→Included : (xs ys : List String) → all_in xs ys ≡ true → Included xs ys
all_in→Included [] ys h = λ a k. ground arith
all_in→Included (x ∷ xs) ys h =
    contains_head_cases x xs ys (&&_left _ _ h) (all_in→Included xs ys (&&_right _ _ h))

Included→all_in : (xs ys : List String) → Included xs ys → all_in xs ys ≡ true
Included→all_in [] ys h = refl
Included→all_in (x ∷ xs) ys h =
    rw (h x (ground (arith, ==_refl x))) (Included→all_in xs ys (λ a k. h a (ground (arith, k))))

abbrev SameItems : List String → List String → Type 0
SameItems xs ys = (a : String) → contains a xs ≡ contains a ys

same_of_Included : (xs ys : List String) → Included xs ys → Included ys xs → SameItems xs ys
same_of_Included xs ys f g a = ground (arith, f a, g a)

set_equality :
    (xs ys : List String)
    → IsDistinct xs
    → IsDistinct ys
    → ((if length xs == length ys then all_in xs ys else false) ≡ true) ↔ SameItems xs ys
set_equality xs ys dx dy = (
  λ h.
      let inc : Included xs ys = all_in→Included xs ys (ground (arith, h)) in
      let same : length xs ≡ length ys = ground (arith, h) in
      same_of_Included xs ys inc (Included-of_length xs ys dx inc (omega arith)),
  λ s.
      let sub : Included xs ys = λ a k. ground (arith, s a) in
      let sup : Included ys xs = λ a k. ground (arith, s a) in
      ground (
        arith,
        Included→all_in xs ys sub,
        length-le_of_Included xs ys dx sub,
        length-le_of_Included ys xs dy sup,
      ),
)

-- `Equals` holds of two sets built from lists exactly when the lists have the same items,
-- whatever their order and repetitions.
pub equals_iff :
    (xs ys : List String)
    → (equals (new_include_set xs) (new_include_set ys) ≡ true)
      ↔ ((a : String) → contains a xs ≡ contains a ys)
unfolding equals new_include_set new_set
equals_iff xs ys =
    let core =
      set_equality (put_items xs []) (put_items ys []) (put_items-IsDistinct xs [] tt)
        (put_items-IsDistinct ys [] tt) in
    (
      λ h a. ground (arith, core.0 h a, contains-put_items a xs [], contains-put_items a ys []),
      λ s.
          core.1 (λ a. ground (arith, s a, contains-put_items a xs [], contains-put_items a ys [])),
    )
