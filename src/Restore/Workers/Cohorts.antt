-- ===== src/Restore/Workers/Cohorts.antt =====
-- restore/parallel.go: the statements of one cohort go to one connection, in their order.
use gpbackup.Base.{
  ℕ, zero, suc, ◌≤◌, ◌<◌, ◌≡◌, sym, ap, subst, ◌∙◌, inl, inr, Bool, false, none, some, List, [],
  ◌∷◌, ◌++◌, arith, ltb, is_empty, get_elem?, Option, if◌then◌else◌, Bool-cases, Option-cases, ◌==◌,
  nat_comparable, string_comparable, ==_refl, ==_sound, filter, All,
}
use gpbackup.Base.Maps.{GoMap, lookup, put, lookup-put}
use gpbackup.Base.Results.{>>=-eq-ok, ok}
use mathlib.Core.List.{append_assoc, append-nil}
use gpbackup.Toc.{StatementWithType}
use gpbackup.Restore.Batches.{slice_at}
use gpbackup.Restore.Workers.{
  Schedule, least_busy_from, cohort_of, push_statement, place_statement, schedule_from, zero_counts,
  schedule_statements_on_workers,
}

-- The cohort in the table of contents: the number at index 1 of the tier, or 0 where an older
-- backup has written no tier.
abbrev pub tier_cohort : StatementWithType → Option ℕ
tier_cohort s = if is_empty s.tier then some 0 else get_elem? s.tier 1

-- Whether a statement's cohort is assigned to a connection.
abbrev pub is_on : GoMap ℕ ℕ → ℕ → StatementWithType → Bool
is_on assigned conn s = elim (tier_cohort s) [
  | none ↦ false
  | some cohort ↦ elim (lookup cohort assigned) [ none ↦ false | some c ↦ c == conn ]
]

cohort_of-tier_cohort :
    (s : StatementWithType) (cohort : ℕ) → cohort_of s ≡ ok cohort → tier_cohort s ≡ some cohort
unfolding cohort_of
cohort_of-tier_cohort s cohort h = ground (arith, h)

-- Every key of the counts is the number of a connection.
abbrev pub KeysBelow : ℕ → GoMap ℕ ℕ → Type 0
KeysBelow n [] = Unit
KeysBelow n ((k, v) ∷ m) = (k < n) × KeysBelow n m

KeysBelow-put : (n k v : ℕ) (m : GoMap ℕ ℕ) → k < n → KeysBelow n m → KeysBelow n (put k v m)
KeysBelow-put n k v [] h b = (h, tt)
KeysBelow-put n k v ((j, w) ∷ m) h b = ground (arith, KeysBelow-put n k v m h b.1)

zero_counts-KeysBelow : (n k : ℕ) → n ≤ k → KeysBelow k (zero_counts n)
unfolding zero_counts
zero_counts-KeysBelow zero k h = tt
zero_counts-KeysBelow (suc n) k h = (omega arith, zero_counts-KeysBelow n k (omega arith))

least_busy_from-lt :
    (n conn least : ℕ) (m : GoMap ℕ ℕ) → conn < n → KeysBelow n m → least_busy_from conn least m < n
unfolding least_busy_from
least_busy_from-lt n conn least [] h b = h
least_busy_from-lt n conn least ((k, v) ∷ m) h b =
    least_busy_from-lt n (if ltb v least then k else conn) (if ltb v least then v else least) m
      (ground (arith, h, b.0)) b.1

slice_at-put :
    (m n : ℕ) (v : List StatementWithType) (tiers : GoMap ℕ (List StatementWithType))
    → slice_at n (put m v tiers) ≡ (if m == n then v else slice_at n tiers)
slice_at-put m n v tiers = elim (Bool-cases (m == n)) [
  | inl e ↦ rw (lookup-put m n v tiers, slice_at) (rw e)
  | inr e ↦ rw (lookup-put m n v tiers, slice_at) (rw e)
]

is_on_lem :
    (assigned : GoMap ℕ ℕ) (cohort conn k : ℕ) (s : StatementWithType)
    → tier_cohort s ≡ some cohort
    → lookup cohort assigned ≡ some conn
    → is_on assigned k s ≡ (conn == k)
is_on_lem assigned cohort conn k s known pinned = rw (known, is_on) (rw (pinned, is_on))

module _ (visit : GoMap ℕ ℕ → GoMap ℕ ℕ) (num_conns : ℕ) (several : 1 < num_conns)
    (visits : (m : GoMap ℕ ℕ) → KeysBelow num_conns m → KeysBelow num_conns (visit m)) where
  -- Keys stay in range, and the assigned connections too.
  record IsInRange (st : Schedule) : Type 0 where
    counts : KeysBelow num_conns st.conn_statement_counts
    assigned :
        (cohort conn : ℕ) → lookup cohort st.cohort_conn_assignments ≡ some conn → conn < num_conns

  -- What one placement does: the cohort is on some connection from now on, the statement stands
  -- last there, and nothing else changes its place.
  record Placed (st : Schedule) (cohort : ℕ) (s : StatementWithType) (st' : Schedule) : Type 0 where
    conn : ℕ
    is_assigned : lookup cohort st'.cohort_conn_assignments ≡ some conn
    keeps :
        (c k : ℕ)
        → lookup c st.cohort_conn_assignments ≡ some k
        → lookup c st'.cohort_conn_assignments ≡ some k
    split :
        (k : ℕ)
        → slice_at k st'.split_statements ≡ (
            if conn == k
            then slice_at k st.split_statements ++ s ∷ []
            else slice_at k st.split_statements)
    in_range : IsInRange st'

  slice_at-push :
      (conn k : ℕ) (s : StatementWithType) (st : Schedule)
      → slice_at k (push_statement conn s st).split_statements ≡ (
          if conn == k
          then slice_at k st.split_statements ++ s ∷ []
          else slice_at k st.split_statements)
  slice_at-push conn k s st =
      slice_at-put conn k _ st.split_statements ∙ elim (Bool-cases (conn == k)) [
        | inl e ↦ rw e (ap (λ z. slice_at z st.split_statements ++ s ∷ []) (==_sound conn k e))
        | inr e ↦ rw e
      ]

  lookup-fresh :
      (cohort conn c k : ℕ) (m : GoMap ℕ ℕ)
      → lookup cohort m ≡ none
      → lookup c m ≡ some k
      → lookup c (put cohort conn m) ≡ some k
  lookup-fresh cohort conn c k m e h = elim (Bool-cases (cohort == c)) [
    | inl same ↦ absurd (clash (ap (λ z. lookup z m) (==_sound cohort c same)))
    | inr other ↦ lookup-put cohort c conn m ∙ rw other h
  ]
    where
      clash : lookup cohort m ≡ lookup c m → ⊥
      clash p = cc

  assigned-fresh :
      (cohort conn c k : ℕ) (st : Schedule)
      → conn < num_conns
      → IsInRange st
      → lookup c (put cohort conn st.cohort_conn_assignments) ≡ some k
      → k < num_conns
  assigned-fresh cohort conn c k st lt r h = elim (Bool-cases (cohort == c)) [
    | inl same ↦ ground (arith, sym (lookup-put cohort c conn st.cohort_conn_assignments), same, lt)
    | inr other ↦
        r.assigned c k
          (ground (arith, sym (lookup-put cohort c conn st.cohort_conn_assignments), other))
  ]

  place_fresh :
      (st : Schedule) (cohort conn : ℕ) (s : StatementWithType)
      → conn < num_conns
      → IsInRange st
      → lookup cohort st.cohort_conn_assignments ≡ none
      → Placed st cohort s (
          push_statement conn s
            (record st { cohort_conn_assignments = put cohort conn st.cohort_conn_assignments }))
  place_fresh st cohort conn s lt r e = record {
    conn = conn;
    is_assigned = lookup-put cohort cohort conn st.cohort_conn_assignments ∙ rw (==_refl cohort);
    keeps = λ c k h. lookup-fresh cohort conn c k st.cohort_conn_assignments e h;
    split = λ k.
        slice_at-push conn k s
          (record st { cohort_conn_assignments = put cohort conn st.cohort_conn_assignments });
    in_range = record {
      counts = KeysBelow-put num_conns conn _ _ lt r.counts;
      assigned = λ c k h. assigned-fresh cohort conn c k st lt r h;
    };
  }

  place_statement-Placed :
      (st : Schedule) (cohort : ℕ) (s : StatementWithType)
      → IsInRange st
      → Placed st cohort s (place_statement visit st cohort s)
  unfolding place_statement
  place_statement-Placed st cohort s r =
      elim (Option-cases (lookup cohort st.cohort_conn_assignments)) [
        | inr (conn, e) ↦
            rw (e, place_statement)
              (record {
                conn = conn;
                is_assigned = e;
                keeps = λ c k h. h;
                split = λ k. slice_at-push conn k s st;
                in_range = record {
                  counts = KeysBelow-put num_conns conn _ _ (r.assigned cohort conn e) r.counts;
                  assigned = r.assigned;
                };
              })
        | inl e ↦
            rw (e, place_statement)
              (place_fresh st cohort _ s
                (least_busy_from-lt num_conns 1 _ (visit st.conn_statement_counts) several
                  (visits st.conn_statement_counts r.counts))
                r e)
      ]

  abbrev OnConns : GoMap ℕ ℕ → List StatementWithType → Type 0
  OnConns assigned ss =
      All
        (λ s.
          (cohort : ℕ) × (conn : ℕ) × (tier_cohort s ≡ some cohort)
          × (lookup cohort assigned ≡ some conn)
          × (conn < num_conns))
        ss

  -- The whole loop, from any state.
  record Scheduled (st : Schedule) (ss : List StatementWithType) (end : Schedule) : Type 0 where
    keeps :
        (c k : ℕ)
        → lookup c st.cohort_conn_assignments ≡ some k
        → lookup c end.cohort_conn_assignments ≡ some k
    split :
        (k : ℕ)
        → slice_at k end.split_statements
          ≡ slice_at k st.split_statements ++ filter (is_on end.cohort_conn_assignments k) ss
    on_conns : OnConns end.cohort_conn_assignments ss

  after_placement :
      (st st' end : Schedule) (cohort : ℕ) (s : StatementWithType) (ss : List StatementWithType)
      → tier_cohort s ≡ some cohort
      → Placed st cohort s st'
      → Scheduled st' ss end
      → Scheduled st (s ∷ ss) end
  after_placement st st' end cohort s ss known p q =
      let pinned = q.keeps cohort p.conn p.is_assigned in
      let here = λ (k : ℕ). is_on_lem end.cohort_conn_assignments cohort p.conn k s known pinned in
      record {
        keeps = λ c k a. q.keeps c k (p.keeps c k a);
        split = λ k. q.split k ∙ elim (Bool-cases (p.conn == k)) [
          | inl e ↦
              rw (p.split k, here k, e) (append_assoc (slice_at k st.split_statements) (s ∷ []) _)
          | inr e ↦ rw (p.split k, here k, e)
        ];
        on_conns = (
          (cohort, p.conn, known, pinned, p.in_range.assigned cohort p.conn p.is_assigned),
          q.on_conns,
        );
      }

  schedule_from-Scheduled :
      (st : Schedule) (ss : List StatementWithType) (end : Schedule)
      → IsInRange st
      → schedule_from visit st ss ≡ ok end
      → Scheduled st ss end
  unfolding schedule_from
  schedule_from-Scheduled st [] end r h =
      let e : st ≡ end = cc in
      subst (Scheduled st []) e
        (record { keeps = λ c k a. a; split = λ k. sym (append-nil _); on_conns = tt })
  schedule_from-Scheduled st (s ∷ ss) end r h =
      let (cohort, known, later) =
        >>=-eq-ok (cohort_of s) (λ c. schedule_from visit (place_statement visit st c s) ss) h in
      let p : Placed st cohort s (place_statement visit st cohort s) =
        place_statement-Placed st cohort s r in
      let q : Scheduled (place_statement visit st cohort s) ss end =
        schedule_from-Scheduled (place_statement visit st cohort s) ss end p.in_range later in
      after_placement st (place_statement visit st cohort s) end cohort s ss
        (cohort_of-tier_cohort s cohort known) p q

-- Of the statements of one call, every connection gets those whose cohort is assigned to it, in the
-- given order, and every statement's cohort is assigned to one of the connections, of which there
-- are at least two. So no two connections get statements of one cohort from one call. The cohort is
-- the second number of the tier, or 0 without a tier. This holds for every order in which the
-- runtime ranges over the counts.
pub schedule_statements_on_workers-cohorts :
    (visit : GoMap ℕ ℕ → GoMap ℕ ℕ) (num_conns : ℕ) (ss : List StatementWithType) (end : Schedule)
    → 1 < num_conns
    → ((m : GoMap ℕ ℕ) → KeysBelow num_conns m → KeysBelow num_conns (visit m))
    → schedule_statements_on_workers visit ss num_conns ≡ ok end
    → ((k : ℕ) → slice_at k end.split_statements ≡ filter (is_on end.cohort_conn_assignments k) ss)
      × All
          (λ s.
            (cohort : ℕ) × (conn : ℕ) × (tier_cohort s ≡ some cohort)
            × (lookup cohort end.cohort_conn_assignments ≡ some conn)
            × (conn < num_conns))
          ss
unfolding schedule_statements_on_workers
schedule_statements_on_workers-cohorts visit num_conns ss end several visits h =
    let q =
      schedule_from-Scheduled visit num_conns several visits
        (record {
          split_statements = [];
          cohort_conn_assignments = [];
          conn_statement_counts = zero_counts num_conns;
        })
        ss end
        (record {
          counts = zero_counts-KeysBelow num_conns num_conns (omega arith);
          assigned = λ c k a. cc;
        })
        h in
    (q.split, q.on_conns)
