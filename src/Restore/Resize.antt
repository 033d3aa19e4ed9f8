-- ===== src/Restore/Resize.antt =====
-- restore/remote.go and restore/validate.go: a restore to a cluster of another size.
pub mod Batches
use gpbackup.Base.{
  ℕ, zero, suc, ◌+◌, ◌-◌, ◌*◌, ◌/◌, ◌%◌, ◌≤◌, ◌<◌, String, ◌<>◌, len, slice, ◌≡◌, refl, sym, ap,
  subst, ◌∙◌, ◌≢◌, ◌↔◌, ◌⊎◌, inl, inr, Bool, true, false, not, ◌&&◌, ◌||◌, Option, none, some, List,
  [], ◌∷◌, ◌++◌, map, arith, ltb, leb, nat_beq, if◌then◌else◌, nat_beq_iff, ltb→lt, lt→ltb, leb→le,
  Bool-cases, Option-cases, &&_left, &&_right, Comparable, ◌==◌, nat_comparable, string_comparable,
  ==_refl, ==_sound, ==_sym, length, is_empty, get_elem?, drop, filter, All, length-append,
  filter-append, All-append, All-map,
}
use gpbackup.Base.Results.{Outcome, ok, fatal, ◌>>=◌, ◌>>◌, fatal_if, >>-eq-ok}

-- The sizes, whether the cluster is resized, and the number of batches.
pub record ResizeInfo : Type 0 where
  pub orig_size : ℕ
  pub dest_size : ℕ
  pub is_resize : Bool
  pub batches : ℕ

unfoldable pub num_batches : Bool → ℕ → ℕ → ℕ
num_batches is_resize orig_size dest_size =
    if is_resize && ltb dest_size orig_size
    then (if orig_size % dest_size == 0 then orig_size / dest_size else orig_size / dest_size + 1)
    else 1

-- `segment_count` is that of the backup, 0 if it was taken before the count was stored;
-- `dest_size` is the number of segments of the cluster.
unfoldable pub get_resize_cluster_info : Bool → ℕ → ℕ → ResizeInfo
unfolding num_batches
get_resize_cluster_info is_resize segment_count dest_size =
    let orig_size = if not is_resize && segment_count == 0 then dest_size else segment_count in
    record {
      orig_size = orig_size;
      dest_size = dest_size;
      is_resize = is_resize;
      batches = num_batches is_resize orig_size dest_size;
    }

-- The value of the flag --resize-cluster with which the restore goes on.
unfoldable pub validate_safe_to_resize_cluster : Bool → ℕ → ℕ → Outcome Bool
unfolding get_resize_cluster_info
validate_safe_to_resize_cluster resize_cluster segment_count dest_size =
    let info = get_resize_cluster_info resize_cluster segment_count dest_size in
    if info.is_resize
    then (if info.orig_size == 0
        then fatal
            "Segment count for backup is unknown, cannot restore using --resize-cluster flag."
        else ok (not (info.orig_size == info.dest_size)))
    else (if not (info.orig_size == 0) && not (info.orig_size == info.dest_size)
        then fatal
            "Cannot restore a backup to a cluster of another size unless the --resize-cluster flag is used."
        else ok false)
