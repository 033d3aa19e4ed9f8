-- ===== src/Restore/Batches/Predata.antt =====
-- restore/parallel.go: what each predata batch holds, in the order of the statements.
use gpbackup.Base.{
  ℕ, ◌<◌, ◌≡◌, refl, sym, ap, ◌∙◌, inl, inr, Bool, true, false, List, [], ◌∷◌, ◌++◌, arith, ltb,
  is_empty, map, if◌then◌else◌, Bool-cases, ◌==◌, nat_comparable, string_comparable, ==_sound,
  filter,
}
use gpbackup.Base.Maps.{GoMap, put, lookup-put}
use mathlib.Core.List.{append_assoc, append-nil}
use gpbackup.Toc.{StatementWithType}
use gpbackup.Restore.Batches.{
  PredataBatches, normal_tier, tier_number, slice_at, add_predata, batch_predata_from,
  batch_predata_statements,
}

abbrev normalized : List StatementWithType → List StatementWithType
normalized [] = []
normalized (s ∷ ss) = normal_tier s ∷ normalized ss

-- The statements of one tier.
abbrev of_normal_tier : ℕ → List StatementWithType → List StatementWithType
of_normal_tier n ss = filter (λ s. tier_number s == n) (normalized ss)

-- The statements that stand before the first of a numbered tier.
abbrev before_normal : List StatementWithType → List StatementWithType
before_normal [] = []
before_normal (s ∷ ss) =
    let rest = before_normal ss in
    if ltb 0 (tier_number (normal_tier s)) then [] else normal_tier s ∷ rest

abbrev State : Type 0
State = Bool × PredataBatches

slice_at-put :
    (m n : ℕ) (v : List StatementWithType) (tiers : GoMap ℕ (List StatementWithType))
    → slice_at n (put m v tiers) ≡ (if m == n then v else slice_at n tiers)
slice_at-put m n v tiers = elim (Bool-cases (m == n)) [
  | inl e ↦ rw (lookup-put m n v tiers, slice_at) (rw e)
  | inr e ↦ rw (lookup-put m n v tiers, slice_at) (rw e)
]

slice_at_eq :
    (m n : ℕ) (tiers : GoMap ℕ (List StatementWithType))
    → (m == n) ≡ true
    → slice_at m tiers ≡ slice_at n tiers
slice_at_eq m n tiers h = ap (λ k. slice_at k tiers) (==_sound m n h)

slice_at-add_predata :
    (st : State) (s : StatementWithType) (n : ℕ)
    → 0 < n
    → slice_at n (add_predata st s).1.numbered_tiers ≡ (
        if tier_number (normal_tier s) == n
        then slice_at n st.1.numbered_tiers ++ normal_tier s ∷ []
        else slice_at n st.1.numbered_tiers)
unfolding add_predata
slice_at-add_predata (found, b) s n h =
    let m = tier_number (normal_tier s) in
    elim (Bool-cases (ltb 0 m)) [
      | inl e ↦ rw e (
          slice_at-put m n _ b.numbered_tiers
          ∙ elim (Bool-cases (tier_number (normal_tier s) == n)) [
            | inl same ↦
                rw (slice_at_eq (tier_number (normal_tier s)) n b.numbered_tiers same, same)
            | inr other ↦ rw other
          ])
      | inr e ↦
          let differs : (tier_number (normal_tier s) == n) ≡ false = ground arith in
          elim (Bool-cases found) [ inl f ↦ rw (e, f, differs) | inr f ↦ rw (e, f, differs) ]
    ]

numbered_tiers-from :
    (st : State) (ss : List StatementWithType) (n : ℕ)
    → 0 < n
    → slice_at n (batch_predata_from st ss).1.numbered_tiers
      ≡ slice_at n st.1.numbered_tiers ++ of_normal_tier n ss
unfolding batch_predata_from
numbered_tiers-from st [] n h = sym (append-nil _)
numbered_tiers-from st (s ∷ ss) n h =
    numbered_tiers-from (add_predata st s) ss n h
    ∙ rw (slice_at-add_predata st s n h) (elim (Bool-cases (tier_number (normal_tier s) == n)) [
      | inl e ↦ rw e (append_assoc _ (normal_tier s ∷ []) _)
      | inr e ↦ rw e
    ])

module _ (b : PredataBatches) (s : StatementWithType) where
  add_numbered :
      (found : Bool)
      → ltb 0 (tier_number (normal_tier s)) ≡ true
      → add_predata (found, b) s ≡ (
        true,
        record b {
          numbered_tiers =
              put
                (tier_number (normal_tier s))
                (slice_at (tier_number (normal_tier s)) b.numbered_tiers ++ normal_tier s ∷ [])
                b.numbered_tiers;
        },
      )
  unfolding add_predata
  add_numbered found e = rw e

  add_second :
      ltb 0 (tier_number (normal_tier s)) ≡ false
      → add_predata (true, b) s
        ≡ (true, record b { second_tier_zero = b.second_tier_zero ++ normal_tier s ∷ [] })
  unfolding add_predata
  add_second e = rw e

  add_first :
      ltb 0 (tier_number (normal_tier s)) ≡ false
      → add_predata (false, b) s
        ≡ (false, record b { first_tier_zero = b.first_tier_zero ++ normal_tier s ∷ [] })
  unfolding add_predata
  add_first e = rw e

second_tier_zero-from :
    (b : PredataBatches) (ss : List StatementWithType)
    → ((batch_predata_from (true, b) ss).1.second_tier_zero
        ≡ b.second_tier_zero ++ of_normal_tier 0 ss)
      × ((batch_predata_from (true, b) ss).1.first_tier_zero ≡ b.first_tier_zero)
unfolding batch_predata_from
second_tier_zero-from b [] = (sym (append-nil _), refl)
second_tier_zero-from b (s ∷ ss) = elim (Bool-cases (ltb 0 (tier_number (normal_tier s)))) [
  | inl e ↦
      let differs : (tier_number (normal_tier s) == 0) ≡ false = ground arith in
      rw (add_numbered b s true e, differs, batch_predata_from) (second_tier_zero-from _ ss)
  | inr e ↦
      let same : (tier_number (normal_tier s) == 0) ≡ true = ground arith in
      let (second, first) =
        second_tier_zero-from
          (record b { second_tier_zero = b.second_tier_zero ++ normal_tier s ∷ [] }) ss in
      rw (add_second b s e, same, batch_predata_from)
        (second ∙ append_assoc _ (normal_tier s ∷ []) _, first)
]

first_tier_zero-from :
    (b : PredataBatches) (ss : List StatementWithType)
    → ((batch_predata_from (false, b) ss).1.first_tier_zero ≡ b.first_tier_zero ++ before_normal ss)
      × (b.second_tier_zero ≡ []
          → before_normal ss ++ (batch_predata_from (false, b) ss).1.second_tier_zero
            ≡ of_normal_tier 0 ss)
unfolding batch_predata_from
first_tier_zero-from b [] = (sym (append-nil _), λ e. e)
first_tier_zero-from b (s ∷ ss) = elim (Bool-cases (ltb 0 (tier_number (normal_tier s)))) [
  | inl e ↦
      let differs : (tier_number (normal_tier s) == 0) ≡ false = ground arith in
      rw (add_numbered b s false e, e, differs, batch_predata_from)
        (
          (second_tier_zero-from _ ss).1 ∙ sym (append-nil _),
          λ none_yet. (second_tier_zero-from _ ss).0 ∙ rw none_yet,
        )
  | inr e ↦
      let same : (tier_number (normal_tier s) == 0) ≡ true = ground arith in
      let (first, both) =
        first_tier_zero-from
          (record b { first_tier_zero = b.first_tier_zero ++ normal_tier s ∷ [] }) ss in
      rw (add_first b s e, e, same, batch_predata_from)
        (
          first ∙ append_assoc _ (normal_tier s ∷ []) _,
          λ none_yet. ap (◌∷◌ (normal_tier s)) (both none_yet),
        )
]

-- The tier of a statement as the file of an older backup means it: a missing one is [0, 0].
abbrev pub with_tier : StatementWithType → StatementWithType
with_tier s = record s { tier = if is_empty s.tier then 0 ∷ 0 ∷ [] else s.tier }

abbrev pub starts_with : ℕ → List ℕ → Bool
starts_with n [] = false
starts_with n (t ∷ tier) = t == n

-- The statements of one tier.
abbrev pub of_tier : ℕ → List StatementWithType → List StatementWithType
of_tier n ss = filter (λ s. starts_with n s.tier) (map with_tier ss)

-- The statements that stand before the first of a numbered tier.
abbrev pub before_numbered : List StatementWithType → List StatementWithType
before_numbered [] = []
before_numbered (s ∷ ss) =
    let rest = before_numbered ss in
    if starts_with 0 (with_tier s).tier then with_tier s ∷ rest else []

normal_tier_lem : (s : StatementWithType) → normal_tier s ≡ with_tier s
unfolding normal_tier
normal_tier_lem s = elim (Bool-cases (is_empty s.tier)) [ inl e ↦ rw e refl | inr e ↦ rw e refl ]

starts_with_lem :
    (n : ℕ) (tier : List ℕ)
    → starts_with n (if is_empty tier then 0 ∷ 0 ∷ [] else tier)
      ≡ ((elim (if is_empty tier then 0 ∷ 0 ∷ [] else tier) [ [] ↦ 0 | t ∷ _ ↦ t ]) == n)
starts_with_lem n [] = refl
starts_with_lem n (t ∷ tier) = refl

starts_with-tier_number :
    (n : ℕ) (s : StatementWithType)
    → starts_with n (with_tier s).tier ≡ (tier_number (normal_tier s) == n)
starts_with-tier_number n s =
    starts_with_lem n s.tier ∙ ap (λ z. tier_number z == n) (sym (normal_tier_lem s))

of_tier_lem : (n : ℕ) (ss : List StatementWithType) → of_normal_tier n ss ≡ of_tier n ss
of_tier_lem n [] = refl
of_tier_lem n (s ∷ ss) = elim (Bool-cases (tier_number (normal_tier s) == n)) [
  | inl e ↦
      rw (e, starts_with-tier_number n s ∙ e, normal_tier_lem s)
        (ap (◌∷◌ (with_tier s)) (of_tier_lem n ss))
  | inr e ↦ rw (e, starts_with-tier_number n s ∙ e) (of_tier_lem n ss)
]

before_numbered_lem : (ss : List StatementWithType) → before_normal ss ≡ before_numbered ss
before_numbered_lem [] = refl
before_numbered_lem (s ∷ ss) = elim (Bool-cases (tier_number (normal_tier s) == 0)) [
  | inl e ↦
      let zero_tier : ltb 0 (tier_number (normal_tier s)) ≡ false = ground (arith, e) in
      rw (zero_tier, starts_with-tier_number 0 s ∙ e, normal_tier_lem s)
        (ap (◌∷◌ (with_tier s)) (before_numbered_lem ss))
  | inr e ↦
      let numbered : ltb 0 (tier_number (normal_tier s)) ≡ true = ground (arith, e) in
      rw (numbered, starts_with-tier_number 0 s ∙ e) refl
]

-- Every numbered tier holds its statements, the first part of tier 0 those before the first
-- numbered tier, and the two parts of tier 0 together all of tier 0; each in the given order, and
-- with a missing tier read as [0, 0].
pub batch_predata_statements_lem :
    (ss : List StatementWithType)
    → let b = batch_predata_statements ss in
      ((n : ℕ) → 0 < n → slice_at n b.numbered_tiers ≡ of_tier n ss)
      × (b.first_tier_zero ≡ before_numbered ss)
      × (b.first_tier_zero ++ b.second_tier_zero ≡ of_tier 0 ss)
unfolding batch_predata_statements
batch_predata_statements_lem ss =
    let start : PredataBatches = record {
      first_tier_zero = [];
      numbered_tiers = [];
      second_tier_zero = [];
    } in
    let (first, both) = first_tier_zero-from start ss in
    (
      λ n h. numbered_tiers-from (false, start) ss n h ∙ of_tier_lem n ss,
      first ∙ before_numbered_lem ss,
      ap (λ z. z ++ (batch_predata_from (false, start) ss).1.second_tier_zero) first
          ∙ (both refl ∙ of_tier_lem 0 ss),
    )
