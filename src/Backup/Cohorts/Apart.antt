-- ===== src/Backup/Cohorts/Apart.antt =====
-- backup/dependencies.go: assignCohorts, before it makes the numbers contiguous, merges only the
-- cohorts that a dependency connects.
use gpbackup.Base.{
  ℕ, ◌+◌, ◌%◌, ◌<◌, ◌≡◌, refl, subst, inl, inr, List, [], ◌∷◌, ◌++◌, arith, slice, Bool-cases, ◌==◌,
  nat_comparable, ==_sound, length,
}
use gpbackup.Base.Maps.{put}
use gpbackup.Base.Counting.{contains-append, IsDistinct}
use gpbackup.Base.Words.{u32}
use gpbackup.Backup.Objects.{UniqueId, unique_id_comparable}
use gpbackup.Backup.Sort.{Sortable, ids, DependencyMap, set_at}
use gpbackup.Backup.Cohorts.{Cohorts, own_cohorts, no_cohorts, merge_items}
use gpbackup.Backup.Cohorts.Relabelling.{Agree, contains-keys-put}
use gpbackup.Backup.Cohorts.Together.{IsClosed}
use gpbackup.Backup.Cohorts.Assignment.{
  own_cohorts-Started, Agree-fewer, none-Started, merge_items-Together,
}
use gpbackup.Backup.Cohorts.Separation.{KeysFit, IsFine}
use gpbackup.Backup.Cohorts.Colours.{
  IsColouring, own_cohorts-Alone, own_cohorts-Refines, Alone, merge_items-IsFine,
}

own_cohorts-KeysFit :
    (i : ℕ) (slice : List Sortable) (c : Cohorts)
    → i + length slice < u32
    → KeysFit c
    → KeysFit (own_cohorts i slice c)
unfolding own_cohorts KeysFit
own_cohorts-KeysFit i [] c small fits = fits
own_cohorts-KeysFit i (item ∷ slice) c small fits =
    own_cohorts-KeysFit (i + 1) slice
      (record {
        object_to_cohort = set_at item.unique_id ((i + 1) % u32) c.object_to_cohort;
        cohort_numbers = put ((i + 1) % u32) (item.unique_id ∷ []) c.cohort_numbers;
      })
      (omega (arith, small))
      (λ k h. elim (Bool-cases ((i + 1) % u32 == k)) [
        | inl same ↦
            let wrap : (i + 1) % u32 ≡ i + 1 = omega (arith, small) in
            subst (λ j. (0 < j) × (j < u32)) (==_sound ((i + 1) % u32) k same)
              (omega (arith, wrap), omega (arith, wrap, small))
        | inr other ↦ fits k (
            ground (
              arith,
              h,
              other,
              contains-keys-put k ((i + 1) % u32) (item.unique_id ∷ []) c.cohort_numbers,
            ))
      ])

none-KeysFit : KeysFit no_cohorts
unfolding KeysFit
none-KeysFit k h = ground (arith, h)

none-Alone : Alone no_cohorts
unfolding Alone
none-Alone k a b in_a in_b = ground (arith, in_a)

-- The cohorts when the loops have merged them.
pub merged-IsFine :
    (slice : List Sortable) (dependencies : DependencyMap) (colour : UniqueId → ℕ)
    → IsDistinct (ids slice)
    → length slice < u32
    → IsClosed dependencies (ids slice)
    → IsColouring dependencies (ids slice) colour
    → Agree (ids slice) (merge_items dependencies slice slice (own_cohorts 0 slice no_cohorts))
      × IsFine colour
          (ids slice)
          (merge_items dependencies slice slice (own_cohorts 0 slice no_cohorts))
unfolding IsFine
merged-IsFine slice dependencies colour distinct small closed colouring =
    let own = own_cohorts 0 slice no_cohorts in
    let started =
      own_cohorts-Started 0 [] slice no_cohorts (omega (arith, small)) distinct (λ j h. refl)
        none-Started in
    let agree =
      Agree-fewer (ids slice ++ []) (ids slice) own
        (λ j h. ground (arith, h, contains-append j (ids slice) [])) started in
    let alone = own_cohorts-Alone 0 slice no_cohorts none-Alone in
    (
      (merge_items-Together dependencies slice slice own closed (λ j h. h) agree).0,
      merge_items-IsFine colour dependencies slice slice own closed colouring (λ j h. h) agree
          (
            own_cohorts-Refines colour (ids slice) own agree alone,
            own_cohorts-KeysFit 0 slice no_cohorts (omega (arith, small)) none-KeysFit,
          ),
    )
