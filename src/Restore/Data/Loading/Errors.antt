-- ===== src/Restore/Data/Loading/Errors.antt =====
-- restore/data.go: what a connection does when tables fail.
use gpbackup.Base.{
  ℕ, ◌+◌, ◌<◌, String, ◌≡◌, refl, sym, ap, ◌∙◌, ◌≢◌, inl, inr, true, false, not, ◌||◌, none, some,
  List, [], ◌∷◌, ◌++◌, map, arith, Option-cases, nat_comparable, string_comparable, length, filter,
  All,
}
use gpbackup.Base.Counting.{contains}
use mathlib.Core.List.{append_assoc, append-nil}
use gpbackup.Base.Words.{pos, increment_i32, i32_limit}
use gpbackup.Toc.{CoordinatorDataEntry}
use gpbackup.Restore.Data.Loading.{
  TableError, agent_err, other_err, finished, cancelled, LoadJob, Loaded, table_name, fail_table,
  truncate_first, load_table, load_tables, nothing_loaded, is_failure,
}
use gpbackup.Restore.Data.Loading.Steps.{
  truncate_errors, contains-add_table, truncate_first-keeps, truncate_first-logged,
  load_tables-goes, load_tables-ends, load_table-fine, load_table-fails, with_restored,
  with_failure, succeeding, failing_tables,
}

module _ (job : LoadJob) where
  load_tables-all :
      (entries : List CoordinatorDataEntry) (st : Loaded) (n : ℕ)
      → job.on_error_continue ≡ true
      → ((entry : CoordinatorDataEntry) → job.outcome entry ≢ some agent_err)
      → st.loop_end ≡ finished
      → st.num_errors ≡ pos n
      → n + length entries < i32_limit
      → ((load_tables job entries st).loop_end ≡ finished)
        × ((load_tables job entries st).restored
            ≡ st.restored ++ map (table_name job.redirect_schema) (succeeding job entries))
        × ((load_tables job entries st).num_errors ≡ pos (n + length (failing_tables job entries)))
        × ((name : String)
            → contains name (load_tables job entries st).error_tables ≡ (
                contains name st.error_tables
                || contains name
                    (map (table_name job.redirect_schema) (failing_tables job entries))))
        × ((load_tables job entries st).logged ≡ st.logged ++ truncate_errors job entries)
  unfolding load_tables with_restored with_failure
  load_tables-all [] st n on others going counted small = (
    going,
    sym (append-nil st.restored),
    counted ∙ ap pos (omega arith),
    λ name. ground arith,
    sym (append-nil st.logged),
  )
  load_tables-all (entry ∷ entries) st n on others going counted small =
      let (restored, reported, count, end) = truncate_first-keeps job entry st in
      let logged = truncate_first-logged job entry entries st in
      elim (Option-cases (job.outcome entry)) [
        | inl fine ↦
            let goes =
              load_tables-goes job entry entries st (with_restored job entry st)
                (load_table-fine job entry st fine) (end ∙ going) in
            let (ends, loaded, errors, tables, log) =
              load_tables-all entries (with_restored job entry st) n on others (end ∙ going)
                (count ∙ counted) (omega (arith, small)) in
            rw (goes, fine)
              (
                ends,
                loaded
                    ∙ ap
                        (λ r.
                          (r ++ table_name job.redirect_schema entry ∷ [])
                          ++ map (table_name job.redirect_schema) (succeeding job entries))
                        restored
                    ∙ append_assoc st.restored (table_name job.redirect_schema entry ∷ [])
                        (map (table_name job.redirect_schema) (succeeding job entries)),
                errors,
                λ name.
                    tables name
                    ∙ ap
                        (λ t.
                          contains name t
                          || contains name
                              (map (table_name job.redirect_schema) (failing_tables job entries)))
                        reported,
                log ∙ logged,
              )
        | inr (agent_err, fails) ↦ absurd (others entry fails)
        | inr (other_err, fails) ↦
            let goes =
              load_tables-goes job entry entries st (with_failure job entry st)
                (load_table-fails job entry st on fails) (end ∙ going) in
            let more : increment_i32 (pos n) ≡ pos (n + 1) = ground (arith, small) in
            let (ends, loaded, errors, tables, log) =
              load_tables-all entries (with_failure job entry st) (n + 1) on others (end ∙ going)
                (ap increment_i32 (count ∙ counted) ∙ more) (omega (arith, small)) in
            rw (goes, fails)
              (
                ends,
                loaded
                    ∙ ap (λ r. r ++ map (table_name job.redirect_schema) (succeeding job entries))
                        restored,
                errors ∙ ap pos (omega arith),
                λ name.
                    tables name
                    ∙ ground (
                      arith,
                      reported,
                      contains-add_table (table_name job.redirect_schema entry) name
                          (truncate_first job entry st).error_tables,
                    ),
                log ∙ logged,
              )
      ]

-- With --on-error-continue, and when no agent ends, a connection restores every table of its own
-- that can be restored, in their order, whatever tables fail before; it counts the failures, which
-- are fewer than 2^31, and the tables that failed are exactly those that it reports. A TRUNCATE that
-- fails is logged and nothing else: its table is restored and is no failure.
pub load_tables-continue :
    (job : LoadJob) (entries : List CoordinatorDataEntry)
    → job.on_error_continue ≡ true
    → ((entry : CoordinatorDataEntry) → job.outcome entry ≢ some agent_err)
    → length entries < i32_limit
    → ((load_tables job entries nothing_loaded).loop_end ≡ finished)
      × ((load_tables job entries nothing_loaded).restored
          ≡ map
              (table_name job.redirect_schema)
              (filter (λ e. not (is_failure (job.outcome e))) entries))
      × ((load_tables job entries nothing_loaded).num_errors
          ≡ pos (length (filter (λ e. is_failure (job.outcome e)) entries)))
      × ((name : String)
          → contains name (load_tables job entries nothing_loaded).error_tables
            ≡ contains name (
                map
                  (table_name job.redirect_schema)
                  (filter (λ e. is_failure (job.outcome e)) entries)))
      × ((load_tables job entries nothing_loaded).logged ≡ truncate_errors job entries)
unfolding nothing_loaded
load_tables-continue job entries on others small =
    let (end, loaded, errors, tables, log) =
      load_tables-all job entries nothing_loaded 0 on others refl refl (omega (arith, small)) in
    (end, loaded, errors ∙ ap pos (omega arith), tables, log)

module _ (job : LoadJob) where
  load_table-ends :
      (entry : CoordinatorDataEntry) (st : Loaded) (e : TableError)
      → job.on_error_continue ≡ false
      → job.outcome entry ≡ some e
      → load_table job entry st ≡ record (truncate_first job entry st) {
        num_errors = increment_i32 (truncate_first job entry st).num_errors;
        loop_end = cancelled;
      }
  unfolding load_table fail_table
  load_table-ends entry st agent_err off fails = rw (fails, load_table) (rw off refl)
  load_table-ends entry st other_err off fails = rw (fails, load_table) (rw off refl)

  load_tables-before :
      (before after : List CoordinatorDataEntry) (bad : CoordinatorDataEntry) (e : TableError)
      (st : Loaded)
      → job.on_error_continue ≡ false
      → All (λ entry. job.outcome entry ≡ none) before
      → job.outcome bad ≡ some e
      → st.loop_end ≡ finished
      → ((load_tables job (before ++ bad ∷ after) st).loop_end ≡ cancelled)
        × ((load_tables job (before ++ bad ∷ after) st).restored
            ≡ st.restored ++ map (table_name job.redirect_schema) before)
        × ((load_tables job (before ++ bad ∷ after) st).error_tables ≡ st.error_tables)
        × ((load_tables job (before ++ bad ∷ after) st).num_errors ≡ increment_i32 st.num_errors)
        × ((load_tables job (before ++ bad ∷ after) st).logged
            ≡ st.logged ++ truncate_errors job (before ++ bad ∷ []))
  unfolding load_tables with_restored
  load_tables-before [] after bad e st off fine fails going =
      let (restored, reported, count, end) = truncate_first-keeps job bad st in
      let ends = load_tables-ends job bad after st _ (load_table-ends bad st e off fails) refl in
      rw ends (
        refl,
        restored ∙ sym (append-nil st.restored),
        reported,
        ap increment_i32 count,
        sym (append-nil _) ∙ truncate_first-logged job bad [] st,
      )
  load_tables-before (entry ∷ before) after bad e st off fine fails going =
      let (restored, reported, count, end) = truncate_first-keeps job entry st in
      let goes =
        load_tables-goes job entry (before ++ bad ∷ after) st (with_restored job entry st)
          (load_table-fine job entry st fine.0) (end ∙ going) in
      let (ends, loaded, tables, errors, log) =
        load_tables-before before after bad e (with_restored job entry st) off fine.1 fails
          (end ∙ going) in
      rw goes (
        ends,
        loaded
            ∙ ap
                (λ r.
                  (r ++ table_name job.redirect_schema entry ∷ [])
                  ++ map (table_name job.redirect_schema) before)
                restored
            ∙ append_assoc st.restored (table_name job.redirect_schema entry ∷ [])
                (map (table_name job.redirect_schema) before),
        tables ∙ reported,
        errors ∙ ap increment_i32 count,
        log ∙ truncate_first-logged job entry (before ++ bad ∷ []) st,
      )

-- Without --on-error-continue the first table whose restore fails ends the loop and cancels the
-- other connections: the tables before it are restored, and no other, and one error is counted. A
-- TRUNCATE that fails is no such failure: it is only logged, and the log has those of the tables up
-- to the one that ends the loop.
pub load_tables-stop :
    (job : LoadJob) (before after : List CoordinatorDataEntry) (bad : CoordinatorDataEntry)
    (e : TableError)
    → job.on_error_continue ≡ false
    → All (λ entry. job.outcome entry ≡ none) before
    → job.outcome bad ≡ some e
    → ((load_tables job (before ++ bad ∷ after) nothing_loaded).loop_end ≡ cancelled)
      × ((load_tables job (before ++ bad ∷ after) nothing_loaded).restored
          ≡ map (table_name job.redirect_schema) before)
      × ((load_tables job (before ++ bad ∷ after) nothing_loaded).error_tables ≡ [])
      × ((load_tables job (before ++ bad ∷ after) nothing_loaded).num_errors ≡ pos 1)
      × ((load_tables job (before ++ bad ∷ after) nothing_loaded).logged
          ≡ truncate_errors job (before ++ bad ∷ []))
unfolding nothing_loaded
load_tables-stop job before after bad e off fine fails =
    load_tables-before job before after bad e nothing_loaded off fine fails refl
