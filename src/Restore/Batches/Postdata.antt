-- ===== src/Restore/Batches/Postdata.antt =====
-- restore/parallel.go: the first postdata batch holds one index of each table, so that no two
-- indexes of one table are built at once before the table has an index.
use gpbackup.Base.{
  String, ◌≡◌, refl, ap, ◌∙◌, ◌⊎◌, inl, inr, Bool, true, false, not, ◌&&◌, List, [], ◌∷◌, ◌++◌,
  arith, ◌==◌, nat_comparable, string_comparable, ==_refl, ==_sound, filter,
}
use gpbackup.Base.Counting.{contains, IsDistinct}
use mathlib.Core.List.{Perm, perm_middle}
use mathlib.Core.List.Perm
use gpbackup.Toc.{StatementWithType}
use gpbackup.Restore.Batches.{
  PostdataBatches, PostdataBatch, first_batch, second_batch, third_batch, postdata_batch,
  add_to_batch, index_after, batch_postdata_from, batch_postdata_statements,
}

-- The tables that statements refer to.
abbrev pub references : List StatementWithType → List String
references [] = []
references (s ∷ ss) = s.reference_object ∷ references ss

abbrev pub is_index : StatementWithType → Bool
is_index s = s.object_type == "INDEX"

abbrev pub indexes : List StatementWithType → List StatementWithType
indexes ss = filter is_index ss

abbrev all_batches : PostdataBatches → List StatementWithType
all_batches b = b.first ++ (b.second ++ b.third)

add_to_batch-perm :
    (batch : PostdataBatch) (s : StatementWithType) (b : PostdataBatches)
    → Perm (all_batches (add_to_batch batch s b)) (s ∷ all_batches b)
add_to_batch-perm first_batch s b = Perm.rfl
add_to_batch-perm second_batch s b = perm_middle b.first (b.second ++ b.third)
add_to_batch-perm third_batch s b =
    Perm.trans (Perm.append_left b.first (perm_middle b.second b.third))
      (perm_middle b.first (b.second ++ b.third))

batch_postdata_from-perm :
    (indexed : List String) (ss : List StatementWithType)
    → Perm (all_batches (batch_postdata_from indexed ss)) ss
unfolding batch_postdata_from
batch_postdata_from-perm indexed [] = Perm.rfl
batch_postdata_from-perm indexed (s ∷ ss) =
    let batch = postdata_batch indexed s in
    Perm.trans (add_to_batch-perm batch s _)
      (Perm.cons s (batch_postdata_from-perm (index_after batch s.reference_object indexed) ss))

postdata_batch_cases :
    (indexed : List String) (s : StatementWithType)
    → (is_index s ≡ true)
        × (contains s.reference_object indexed ≡ false)
        × (postdata_batch indexed s ≡ first_batch)
      ⊎ ((is_index s && not (contains s.reference_object indexed)) ≡ false)
        × ((postdata_batch indexed s ≡ second_batch) ⊎ (postdata_batch indexed s ≡ third_batch))
unfolding postdata_batch
postdata_batch_cases indexed s = ground arith

index_of_text : (a b : String) (xs : List String) → (a == b) ≡ true → contains a xs ≡ contains b xs
index_of_text a b xs h = ap (λ z. contains z xs) (==_sound a b h)

-- A table has an index in the first batch exactly when it has an index at all and none among
-- those counted before.
first-references :
    (indexed : List String) (ss : List StatementWithType) (t : String)
    → contains t (references (batch_postdata_from indexed ss).first)
      ≡ (contains t (references (indexes ss)) && not (contains t indexed))
unfolding batch_postdata_from
first-references indexed [] t = refl
first-references indexed (s ∷ ss) t = elim (postdata_batch_cases indexed s) [
  | inl (index, fresh, e) ↦ rw e (
      ground (
        arith,
        index,
        fresh,
        first-references (s.reference_object ∷ indexed) ss t,
        index_of_text s.reference_object t indexed,
      ))
  | inr (other, inl e) ↦ rw e (
      ground
        (arith, other, first-references indexed ss t, index_of_text s.reference_object t indexed))
  | inr (other, inr e) ↦ rw e (
      ground
        (arith, other, first-references indexed ss t, index_of_text s.reference_object t indexed))
]

first-IsDistinct :
    (indexed : List String) (ss : List StatementWithType)
    → IsDistinct (references (batch_postdata_from indexed ss).first)
unfolding batch_postdata_from
first-IsDistinct indexed [] = tt
first-IsDistinct indexed (s ∷ ss) = elim (postdata_batch_cases indexed s) [
  | inl (index, fresh, e) ↦ rw e (
    ground (
      arith,
      first-references (s.reference_object ∷ indexed) ss s.reference_object,
      ==_refl s.reference_object,
    ),
    first-IsDistinct (s.reference_object ∷ indexed) ss,
  )
  | inr (other, inl e) ↦ rw e (first-IsDistinct indexed ss)
  | inr (other, inr e) ↦ rw e (first-IsDistinct indexed ss)
]

-- The three batches together hold every statement as often as it was given.
pub batch_postdata_statements-perm :
    (ss : List StatementWithType)
    → let b = batch_postdata_statements ss in Perm (b.first ++ (b.second ++ b.third)) ss
unfolding batch_postdata_statements
batch_postdata_statements-perm ss = batch_postdata_from-perm [] ss

-- No two statements of the first batch refer to the same table, and it refers to exactly the
-- tables that have an index among the statements.
pub batch_postdata_statements-first :
    (ss : List StatementWithType)
    → let tables = references (batch_postdata_statements ss).first in
      IsDistinct tables × ((t : String) → contains t tables ≡ contains t (references (indexes ss)))
unfolding batch_postdata_statements
batch_postdata_statements-first ss =
    (first-IsDistinct [] ss, λ t. first-references [] ss t ∙ ground arith)
