-- ===== src/Restore/Data/Striding.antt =====
-- restore/data.go: the tables are divided among the connections, and each helper agent is told the
-- tables of its connection.
use gpbackup.Base.{
  ℕ, zero, suc, ◌+◌, ◌-◌, ◌≤◌, ◌<◌, ◌≡◌, refl, sym, ap, ◌∙◌, inl, inr, Bool, false, List, [], ◌∷◌,
  ◌++◌, map, arith, ltb, if◌then◌else◌, lt→ltb, Bool-cases, nat_comparable, string_comparable,
  length, filter,
}
use gpbackup.Toc.{CoordinatorDataEntry}
use gpbackup.Helper.Restore.{OidWithBatch}
use gpbackup.Restore.Data.{
  strided, max_helpers, batches_of, entry_batches, oid_list_of, helper_oid_list, worker_entries,
}

-- f 0 + ... + f (n - 1)
abbrev pub sum_below : (ℕ → ℕ) → ℕ → ℕ
sum_below f zero = 0
sum_below f (suc n) = f n + sum_below f n

sum_below-suc : (f : ℕ → ℕ) (n : ℕ) → sum_below f (suc n) ≡ f 0 + sum_below (λ w. f (suc w)) n
sum_below-suc f zero = refl
sum_below-suc f (suc n) = omega (arith, sum_below-suc f n)

sum_below-zero : (n : ℕ) → sum_below (λ w. 0) n ≡ 0
sum_below-zero zero = refl
sum_below-zero (suc n) = omega (arith, sum_below-zero n)

-- How many items of a list pass a test.
abbrev pub passing {ℓ} : {A : Type ℓ} → (A → Bool) → List A → ℕ
passing p xs = length (filter p xs)

first {ℓ} :
    {A : Type ℓ} (p : A → Bool) (n : ℕ) (x : A) (xs : List A)
    → sum_below (λ w. passing p (strided w (suc n) xs)) (suc n) ≡ passing p xs
    → passing p (strided 0 (suc n) (x ∷ xs)) + sum_below (λ w. passing p (strided w (suc n) xs)) n
      ≡ passing p (x ∷ xs)
unfolding strided
first p n x xs h =
    let last : suc n - 1 ≡ n = omega arith in
    rw last (elim (Bool-cases (p x)) [
      | inl passes ↦ rw passes (omega (arith, h))
      | inr fails ↦ rw fails (omega (arith, h))
    ])

strided-total {ℓ} :
    {A : Type ℓ} (p : A → Bool) (n : ℕ) (xs : List A)
    → sum_below (λ w. passing p (strided w (suc n) xs)) (suc n) ≡ passing p xs
unfolding strided
strided-total p n [] = sum_below-zero (suc n)
strided-total p n (x ∷ xs) =
    sum_below-suc (λ w. passing p (strided w (suc n) (x ∷ xs))) n
    ∙ first p n x xs (strided-total p n xs)

-- Each table is restored by exactly one connection: whatever test the tables are counted by, the
-- connections together restore as many tables that pass it as there are.
pub worker_entries-total :
    (p : CoordinatorDataEntry → Bool) (num_conns : ℕ) (entries : List CoordinatorDataEntry)
    → 0 < num_conns
    → sum_below (λ which_conn. passing p (worker_entries num_conns entries which_conn)) num_conns
      ≡ passing p entries
unfolding worker_entries
worker_entries-total p zero entries h = absurd (omega arith)
worker_entries-total p (suc n) entries h = strided-total p n entries

strided-past {ℓ} :
    {A : Type ℓ} (wait stride : ℕ) (xs : List A) → length xs ≤ wait → strided wait stride xs ≡ []
unfolding strided
strided-past wait stride [] h = refl
strided-past zero stride (x ∷ xs) h = absurd (omega arith)
strided-past (suc wait) stride (x ∷ xs) h = strided-past wait stride xs (omega arith)

-- A stride past the end of the list is as good as another one.
strided-once {ℓ} :
    {A : Type ℓ} (wait s t : ℕ) (xs : List A)
    → length xs ≤ s
    → length xs ≤ t
    → strided wait s xs ≡ strided wait t xs
unfolding strided
strided-once wait s t [] hs ht = refl
strided-once zero s t (x ∷ xs) hs ht =
    rw (strided-past (s - 1) s xs (omega arith), strided-past (t - 1) t xs (omega arith)) refl
strided-once (suc wait) s t (x ∷ xs) hs ht = strided-once wait s t xs (omega arith) (omega arith)

abbrev pub numbers_below : ℕ → List ℕ
numbers_below zero = []
numbers_below (suc n) = numbers_below n ++ n ∷ []

-- The pipes from which COPY reads tables, one for each batch: a replicated table has only batch 0.
abbrev pub pipes_to_read : ℕ → List CoordinatorDataEntry → List OidWithBatch
pipes_to_read batches [] = []
pipes_to_read batches (entry ∷ entries) =
    map (λ batch. record { oid = entry.oid; batch = batch })
      (numbers_below (if entry.is_replicated then 1 else batches))
    ++ pipes_to_read batches entries

abbrev batch_of : ℕ → ℕ → OidWithBatch
batch_of oid batch = record { oid = oid; batch = batch }

batches_of-last :
    (oid n batch : ℕ)
    → batches_of oid (suc n) batch ≡ batches_of oid n batch ++ batch_of oid (batch + n) ∷ []
unfolding batches_of
batches_of-last oid zero batch =
    let same : batch ≡ batch + 0 = omega arith in ap (λ b. batch_of oid b ∷ []) same
batches_of-last oid (suc n) batch =
    let same : suc batch + n ≡ batch + suc n = omega arith in
    ap (◌∷◌ (batch_of oid batch)) (
      batches_of-last oid n (suc batch)
      ∙ ap (λ b. batches_of oid n (suc batch) ++ batch_of oid b ∷ []) same)

map-last :
    (f : ℕ → OidWithBatch) (xs : List ℕ) (x : ℕ) → map f (xs ++ x ∷ []) ≡ map f xs ++ f x ∷ []
map-last f [] x = refl
map-last f (y ∷ xs) x = ap (◌∷◌ (f y)) (map-last f xs x)

batches_of-numbers_below : (oid n : ℕ) → batches_of oid n 0 ≡ map (batch_of oid) (numbers_below n)
unfolding batches_of
batches_of-numbers_below oid zero = refl
batches_of-numbers_below oid (suc n) =
    batches_of-last oid n 0
    ∙ ap (λ k. batches_of oid n 0 ++ batch_of oid k ∷ []) {x = 0 + n} {y = n} (omega arith)
    ∙ ap (λ xs. xs ++ batch_of oid n ∷ []) (batches_of-numbers_below oid n)
    ∙ sym (map-last (batch_of oid) (numbers_below n) n)

oid_list_of-pipes_to_read :
    (batches : ℕ) (entries : List CoordinatorDataEntry)
    → oid_list_of batches entries ≡ pipes_to_read batches entries
unfolding oid_list_of entry_batches
oid_list_of-pipes_to_read batches [] = refl
oid_list_of-pipes_to_read batches (entry ∷ entries) = elim (Bool-cases entry.is_replicated) [
  | inl replicated ↦
      rw (replicated, oid_list_of)
        (ap (◌∷◌ (batch_of entry.oid 0)) (oid_list_of-pipes_to_read batches entries))
  | inr spread ↦
      rw (spread, batches_of-numbers_below entry.oid batches, oid_list_of)
        (ap (λ rest. map (batch_of entry.oid) (numbers_below batches) ++ rest)
          (oid_list_of-pipes_to_read batches entries))
]

helper_oid_list-strided :
    (num_conns batches : ℕ) (entries : List CoordinatorDataEntry) (which_conn : ℕ)
    → which_conn < num_conns
    → oid_list_of batches (worker_entries num_conns entries which_conn) ≡ (
        if ltb which_conn (max_helpers false num_conns (length entries))
        then helper_oid_list false num_conns batches entries which_conn
        else [])
unfolding helper_oid_list max_helpers worker_entries oid_list_of
helper_oid_list-strided num_conns batches entries which_conn h =
    elim (Bool-cases (ltb num_conns (length entries))) [
      | inl fewer ↦ rw fewer (rw (lt→ltb which_conn num_conns h) refl)
      | inr enough ↦ rw enough (elim (Bool-cases (ltb which_conn (length entries))) [
        | inl has ↦ rw has (
            ap (oid_list_of batches) (
              strided-once which_conn num_conns (length entries) entries (ground (arith, enough))
                (omega arith)))
        | inr none_left ↦
            rw (none_left, strided-past which_conn num_conns entries (ground (arith, none_left)))
              refl
      ])
    ]

-- With one data file per table, the agent of a connection is told the pipes of the tables that the
-- connection restores, in the order of the tables, and of each table the batches from 0 on: one for
-- a replicated table, and all of them for another. A connection without an agent, which there is
-- when the tables are fewer than the connections, has no table to restore.
pub helper_oid_list-worker_entries :
    (num_conns batches : ℕ) (entries : List CoordinatorDataEntry) (which_conn : ℕ)
    → which_conn < num_conns
    → pipes_to_read batches (worker_entries num_conns entries which_conn) ≡ (
        if ltb which_conn (max_helpers false num_conns (length entries))
        then helper_oid_list false num_conns batches entries which_conn
        else [])
helper_oid_list-worker_entries num_conns batches entries which_conn h =
    sym (oid_list_of-pipes_to_read batches (worker_entries num_conns entries which_conn))
    ∙ helper_oid_list-strided num_conns batches entries which_conn h
