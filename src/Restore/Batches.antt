-- ===== src/Restore/Batches.antt =====
-- restore/parallel.go: the batches in which postdata and predata statements are executed.
pub mod Postdata
pub mod Predata
use gpbackup.Base.{
  ℕ, zero, suc, ◌+◌, ◌-◌, ◌*◌, ◌/◌, ◌%◌, ◌≤◌, ◌<◌, String, ◌<>◌, len, slice, ◌≡◌, refl, sym, ap,
  subst, ◌∙◌, ◌≢◌, ◌↔◌, ◌⊎◌, inl, inr, Bool, true, false, not, ◌&&◌, ◌||◌, Option, none, some, List,
  [], ◌∷◌, ◌++◌, map, arith, ltb, leb, nat_beq, if◌then◌else◌, nat_beq_iff, ltb→lt, lt→ltb, leb→le,
  Bool-cases, Option-cases, &&_left, &&_right, Comparable, ◌==◌, nat_comparable, string_comparable,
  ==_refl, ==_sound, ==_sym, length, is_empty, get_elem?, drop, filter, All, length-append,
  filter-append, All-append, All-map,
}
use gpbackup.Base.Counting.{
  contains, count, remove, IsDistinct, Included, count-append, contains-append, contains→count,
  count→contains, not-contains→count, length-le_of_Included, Included-of_length,
}
use gpbackup.Base.Maps.{GoMap, keys, lookup, put, delete, lookup-put, lookup-none}
use gpbackup.Toc.{StatementWithType}
use gpbackup.Toc.DataEntries.{contains_text}

-- The three batches of `BatchPostdataStatements`.
pub record PostdataBatches : Type 0 where
  pub first : List StatementWithType
  pub second : List StatementWithType
  pub third : List StatementWithType

pub data PostdataBatch : Type 0 where
  first_batch second_batch third_batch : PostdataBatch

-- Where a statement goes; `indexed` holds the keys of `indexMap`.
unfoldable pub postdata_batch : List String → StatementWithType → PostdataBatch
postdata_batch indexed statement =
    if statement.object_type == "INDEX" && not (contains statement.reference_object indexed)
    then first_batch
    else if contains_text statement.object_type " METADATA"
    then third_batch
    else second_batch

abbrev add_to_batch : PostdataBatch → StatementWithType → PostdataBatches → PostdataBatches
add_to_batch first_batch s b = record b { first = s ∷ b.first }
add_to_batch second_batch s b = record b { second = s ∷ b.second }
add_to_batch third_batch s b = record b { third = s ∷ b.third }

abbrev index_after : PostdataBatch → String → List String → List String
index_after first_batch table indexed = table ∷ indexed
index_after second_batch table indexed = indexed
index_after third_batch table indexed = indexed

-- The loop; the batches keep the order of the statements.
unfoldable pub batch_postdata_from : List String → List StatementWithType → PostdataBatches
unfolding postdata_batch
batch_postdata_from indexed [] = record { first = []; second = []; third = [] }
batch_postdata_from indexed (statement ∷ statements) =
    let batch = postdata_batch indexed statement in
    add_to_batch batch statement
      (batch_postdata_from (index_after batch statement.reference_object indexed) statements)

unfoldable pub batch_postdata_statements : List StatementWithType → PostdataBatches
unfolding batch_postdata_from
batch_postdata_statements statements = batch_postdata_from [] statements

-- The results of `BatchPredataStatements`: the statements of tier 0 before the first numbered
-- tier, those of each numbered tier, and those of tier 0 after it.
pub record PredataBatches : Type 0 where
  pub first_tier_zero : List StatementWithType
  pub numbered_tiers : GoMap ℕ (List StatementWithType)
  pub second_tier_zero : List StatementWithType

-- A missing tier is read as [0, 0].
unfoldable pub normal_tier : StatementWithType → StatementWithType
normal_tier statement =
    if is_empty statement.tier then record statement { tier = 0 ∷ 0 ∷ [] } else statement

-- `statement.Tier[0]` of a tier that is not empty.
abbrev pub tier_number : StatementWithType → ℕ
tier_number statement = elim statement.tier [ [] ↦ 0 | n ∷ _ ↦ n ]

-- `m[k]` of a map to slices: a missing key reads as the empty slice.
abbrev pub slice_at : ℕ → GoMap ℕ (List StatementWithType) → List StatementWithType
slice_at k m = elim (lookup k m) [ none ↦ [] | some ss ↦ ss ]

-- One round of the loop, with its `foundNumberedTier`.
unfoldable pub add_predata : Bool × PredataBatches → StatementWithType → Bool × PredataBatches
unfolding normal_tier
add_predata (found, b) statement =
    let s = normal_tier statement in
    let n = tier_number s in
    if ltb 0 n
    then (
      true,
      record b { numbered_tiers = put n (slice_at n b.numbered_tiers ++ s ∷ []) b.numbered_tiers },
    )
    else if found
    then (found, record b { second_tier_zero = b.second_tier_zero ++ s ∷ [] })
    else (found, record b { first_tier_zero = b.first_tier_zero ++ s ∷ [] })

batch_predata_from : Bool × PredataBatches → List StatementWithType → Bool × PredataBatches
batch_predata_from state [] = state
batch_predata_from state (s ∷ statements) = batch_predata_from (add_predata state s) statements

unfoldable pub batch_predata_statements : List StatementWithType → PredataBatches
unfolding batch_predata_from add_predata
batch_predata_statements statements =
    (batch_predata_from
      (false, record { first_tier_zero = []; numbered_tiers = []; second_tier_zero = [] })
      statements).1
