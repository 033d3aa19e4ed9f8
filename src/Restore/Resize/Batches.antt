-- ===== src/Restore/Resize/Batches.antt =====
-- restore/remote.go and restore/validate.go: every segment of the backup is restored by a batch.
use gpbackup.Base.{
  ℕ, ◌+◌, ◌*◌, ◌/◌, ◌%◌, ◌≤◌, ◌<◌, String, ◌≡◌, sym, ◌≢◌, ◌⊎◌, inl, inr, Bool, true, false, not,
  ◌&&◌, arith, ltb, ltb→lt, lt→ltb, Bool-cases, ◌==◌, nat_comparable, string_comparable, ==_refl,
  ==_sound,
}
use gpbackup.Base.Results.{Outcome, ok}
use native.Mathlib.Nat.{mod-add-div, div-add-mod', div-lt_iff_lt-mul, lt-div-mul-add, mod-lt}
use gpbackup.Restore.Resize.{num_batches, get_resize_cluster_info, validate_safe_to_resize_cluster}

enough_batches : (orig dest : ℕ) → 0 < dest → dest < orig → orig ≤ num_batches true orig dest * dest
unfolding num_batches
enough_batches orig dest p more = elim (Bool-cases (orig % dest == 0)) [
  | inl e ↦
      rw (lt→ltb dest orig more, e)
        (let whole = div-add-mod' orig dest in
          let none_left = ==_sound (orig % dest) 0 e in omega (arith, whole, none_left))
  | inr e ↦
      rw (lt→ltb dest orig more, e)
        (let above : orig < orig / dest * dest + dest = lt-div-mul-add p in omega (arith, above))
]

enough_for :
    (orig dest content : ℕ)
    → 0 < dest
    → content < orig
    → content / dest < num_batches true orig dest
unfolding num_batches
enough_for orig dest content p c = elim (Bool-cases (ltb dest orig)) [
  | inl e ↦
      let enough = enough_batches orig dest p (ltb→lt dest orig e) in
      (div-lt_iff_lt-mul p).1 (omega (arith, enough, c))
  | inr e ↦ small e
]
  where
    small : ltb dest orig ≡ false → content / dest < num_batches true orig dest
    small e =
        let fits : orig ≤ dest = ground (arith, e) in
        (div-lt_iff_lt-mul p).1 (rw (e, num_batches) (omega (arith, fits, c)))

-- In a resize every segment of the backup belongs to one segment of the cluster and one of the
-- batches: its number is the segment's plus the size of the cluster times the batch.
pub resize_covers :
    (orig dest content : ℕ)
    → 0 < dest
    → content < orig
    → let info = get_resize_cluster_info true orig dest in
      (segment : ℕ) × (batch : ℕ) × (segment < dest)
      × (batch < info.batches)
      × (content ≡ segment + dest * batch)
unfolding get_resize_cluster_info
resize_covers orig dest content p c = (
  content % dest,
  content / dest,
  mod-lt content p,
  enough_for orig dest content p c,
  sym (mod-add-div content dest),
)

and_false : (b : Bool) → (b && false) ≡ false
and_false b = ground arith

value : {a b : Bool} → Outcome.ok a ≡ ok b → a ≡ b
value h = cc

no_fatal : {e : String} {b : Bool} → Outcome.fatal e ≡ ok b → ⊥
no_fatal h = cc

-- A restore that goes on with --resize-cluster is one of a backup whose known size differs from
-- that of the cluster; one that goes on without it has the size of the cluster or an unknown size.
pub validate_safe_to_resize_cluster_lem :
    (flag result : Bool) (segment_count dest : ℕ)
    → validate_safe_to_resize_cluster flag segment_count dest ≡ ok result
    → (result ≡ true → (segment_count ≢ 0) × (segment_count ≢ dest))
      × (result ≡ false → (segment_count ≡ 0) ⊎ (segment_count ≡ dest))
unfolding validate_safe_to_resize_cluster get_resize_cluster_info
validate_safe_to_resize_cluster_lem true result segment_count dest h =
    elim (Bool-cases (segment_count == 0)) [
      | inl e ↦ absurd (no_fatal (rw e at h))
      | inr e ↦
          let same : not (segment_count == dest) ≡ result = value (rw e at h) in
          ground (arith, same, e)
    ]
validate_safe_to_resize_cluster_lem false result segment_count dest h =
    elim (Bool-cases (segment_count == 0)) [
      | inl e ↦
          let same : false ≡ result =
            value (rw (e, ==_refl dest, and_false (not (dest == 0))) at h) in
          (λ r. absurd (ground (arith, same, r)), λ r. inl (==_sound segment_count 0 e))
      | inr e ↦ elim (Bool-cases (segment_count == dest)) [
        | inl f ↦
            let same : false ≡ result =
              value (rw (e, f, and_false (not (segment_count == 0))) at h) in
            (λ r. absurd (ground (arith, same, r)), λ r. inr (==_sound segment_count dest f))
        | inr f ↦ absurd (ground (arith, h, e, f))
      ]
    ]
