-- ===== src/Restore/Data/Loading/Steps.antt =====
-- restore/data.go: what one table changes in the state of a connection.
use gpbackup.Base.{
  String, ◌≡◌, refl, subst, inl, inr, true, not, ◌||◌, if◌then◌else◌, none, some, List, [], ◌∷◌,
  ◌++◌, arith, Bool-cases, Option-cases, ◌==◌, nat_comparable, string_comparable, ==_sound, filter,
}
use gpbackup.Base.Counting.{contains, contains-append}
use mathlib.Core.List.{append_assoc}
use gpbackup.Base.Words.{increment_i32}
use gpbackup.Toc.{CoordinatorDataEntry}
use gpbackup.Restore.Data.Loading.{
  other_err, finished, cancelled, LoadJob, Loaded, table_name, add_table, fail_table,
  truncate_first, load_table, load_tables, is_failure,
}

-- The errors of the TRUNCATE statements that fail, where there are any.
abbrev pub truncate_errors : LoadJob → List CoordinatorDataEntry → List String
truncate_errors job [] = []
truncate_errors job (entry ∷ entries) =
    let rest = truncate_errors job entries in
    if job.incremental || job.truncate_table
    then elim (job.truncate_error entry) [ none ↦ rest | some e ↦ e ∷ rest ]
    else rest

pub contains-add_table :
    (name other : String) (tables : List String)
    → contains other (add_table name tables) ≡ (name == other || contains other tables)
contains-add_table name other tables = elim (Bool-cases (contains name tables)) [
  | inr new ↦ ground (arith, new, contains-append other tables (name ∷ []))
  | inl known ↦ elim (Bool-cases (name == other)) [
    | inl same ↦
        ground (
          arith,
          known,
          same,
          subst (λ z. contains z tables ≡ true) (==_sound name other same) known,
        )
    | inr different ↦ ground (arith, known, different)
  ]
]

module _ (job : LoadJob) where
  abbrev pub succeeding : List CoordinatorDataEntry → List CoordinatorDataEntry
  succeeding entries = filter (λ e. not (is_failure (job.outcome e))) entries

  abbrev pub failing_tables : List CoordinatorDataEntry → List CoordinatorDataEntry
  failing_tables entries = filter (λ e. is_failure (job.outcome e)) entries

  -- A TRUNCATE leaves everything but its own lists as it is.
  pub truncate_first-keeps :
      (entry : CoordinatorDataEntry) (st : Loaded)
      → ((truncate_first job entry st).restored ≡ st.restored)
        × ((truncate_first job entry st).error_tables ≡ st.error_tables)
        × ((truncate_first job entry st).num_errors ≡ st.num_errors)
        × ((truncate_first job entry st).loop_end ≡ st.loop_end)
  unfolding truncate_first
  truncate_first-keeps entry st = elim (Bool-cases (job.incremental || job.truncate_table)) [
    | inr off ↦ rw (off, truncate_first) (refl, refl, refl, refl)
    | inl on ↦ elim (Option-cases (job.truncate_error entry)) [
      | inl fine ↦ rw (on, fine, truncate_first) (refl, refl, refl, refl)
      | inr (e, fails) ↦ rw (on, fails, truncate_first) (refl, refl, refl, refl)
    ]
  ]

  pub truncate_first-logged :
      (entry : CoordinatorDataEntry) (entries : List CoordinatorDataEntry) (st : Loaded)
      → (truncate_first job entry st).logged ++ truncate_errors job entries
        ≡ st.logged ++ truncate_errors job (entry ∷ entries)
  unfolding truncate_first
  truncate_first-logged entry entries st =
      elim (Bool-cases (job.incremental || job.truncate_table)) [
        | inr off ↦ rw (off, truncate_first) refl
        | inl on ↦ elim (Option-cases (job.truncate_error entry)) [
          | inl fine ↦ rw (on, fine, truncate_first) refl
          | inr (e, fails) ↦
              rw (on, fails, truncate_first)
                (append_assoc st.logged (e ∷ []) (truncate_errors job entries))
        ]
      ]

  pub load_tables-goes :
      (entry : CoordinatorDataEntry) (entries : List CoordinatorDataEntry) (st next : Loaded)
      → load_table job entry st ≡ next
      → next.loop_end ≡ finished
      → load_tables job (entry ∷ entries) st ≡ load_tables job entries next
  unfolding load_tables
  load_tables-goes entry entries st next h going = ground (arith, h, going)

  pub load_tables-ends :
      (entry : CoordinatorDataEntry) (entries : List CoordinatorDataEntry) (st next : Loaded)
      → load_table job entry st ≡ next
      → next.loop_end ≡ cancelled
      → load_tables job (entry ∷ entries) st ≡ next
  unfolding load_tables
  load_tables-ends entry entries st next h ending = ground (arith, h, ending)

  unfoldable pub with_restored : CoordinatorDataEntry → Loaded → Loaded
  with_restored entry st = record (truncate_first job entry st) {
    restored = (truncate_first job entry st).restored ++ table_name job.redirect_schema entry ∷ [];
  }

  pub load_table-fine :
      (entry : CoordinatorDataEntry) (st : Loaded)
      → job.outcome entry ≡ none
      → load_table job entry st ≡ with_restored entry st
  unfolding load_table with_restored
  load_table-fine entry st fine = rw (fine, load_table) refl

  unfoldable pub with_failure : CoordinatorDataEntry → Loaded → Loaded
  with_failure entry st = record (truncate_first job entry st) {
    num_errors = increment_i32 (truncate_first job entry st).num_errors;
    error_tables =
        add_table (table_name job.redirect_schema entry) (truncate_first job entry st).error_tables;
  }

  pub load_table-fails :
      (entry : CoordinatorDataEntry) (st : Loaded)
      → job.on_error_continue ≡ true
      → job.outcome entry ≡ some other_err
      → load_table job entry st ≡ with_failure entry st
  unfolding load_table with_failure fail_table
  load_table-fails entry st on fails = rw (fails, load_table) (rw on refl)
