-- ===== src/Tests/OfRestore.antt =====
-- The theorems on the package restore at concrete inputs.
use gpbackup.Base.{
  ℕ, ◌%◌, ◌<◌, String, ◌≡◌, refl, Bool, true, false, none, some, List, [], ◌∷◌, ◌++◌, arith,
  if◌then◌else◌, ◌==◌, nat_comparable, string_comparable, filter, All,
}
use gpbackup.Base.Counting.{contains, IsDistinct}
use gpbackup.Base.Maps.{lookup}
use mathlib.Core.List.{Perm}
use gpbackup.Base.Words.{u32}
use gpbackup.Toc.{StatementWithType}
use gpbackup.Restore.Batches.{slice_at, batch_postdata_statements, batch_predata_statements}
use gpbackup.Restore.Batches.Postdata.{
  batch_postdata_statements-perm, batch_postdata_statements-first, references, indexes,
}
use gpbackup.Restore.Batches.Predata.{batch_predata_statements_lem, of_tier, before_numbered}
use gpbackup.Restore.Workers.{
  Schedule, schedule_statements_on_workers, commit, rollback, Worker, Environment,
  execute_statements_for_conn,
}
use gpbackup.Restore.Workers.Cohorts.{tier_cohort, is_on, schedule_statements_on_workers-cohorts}
use gpbackup.Restore.Workers.Execution.{execute_statements-continue, execute_statements-stop}

abbrev statement_of : String → String → List ℕ → StatementWithType
statement_of type reference tier = record {
  schema = "s";
  name = "n";
  object_type = type;
  reference_object = reference;
  statement = "x";
  tier = tier;
}

abbrev two_indexes : List StatementWithType
two_indexes = statement_of "INDEX" "s.t" [] ∷ statement_of "INDEX" "s.t" [] ∷ []

batch_postdata_statements-perm_example :
    let b = batch_postdata_statements two_indexes in
    Perm (b.first ++ (b.second ++ b.third)) two_indexes
batch_postdata_statements-perm_example = batch_postdata_statements-perm two_indexes

batch_postdata_statements-first_example :
    let tables = references (batch_postdata_statements two_indexes).first in
    IsDistinct tables
    × ((t : String) → contains t tables ≡ contains t (references (indexes two_indexes)))
batch_postdata_statements-first_example = batch_postdata_statements-first two_indexes

abbrev two_tables : List StatementWithType
two_tables = statement_of "TABLE" "" (1 ∷ 7 ∷ []) ∷ statement_of "TABLE" "" (1 ∷ 7 ∷ []) ∷ []

batch_predata_statements_lem_example :
    let b = batch_predata_statements two_tables in
    ((n : ℕ) → 0 < n → slice_at n b.numbered_tiers ≡ of_tier n two_tables)
    × (b.first_tier_zero ≡ before_numbered two_tables)
    × (b.first_tier_zero ++ b.second_tier_zero ≡ of_tier 0 two_tables)
batch_predata_statements_lem_example = batch_predata_statements_lem two_tables

-- Both tables are of cohort 7, which comes to connection 1 of 2.
abbrev both_on_one : Schedule
both_on_one = record {
  split_statements = (1, two_tables) ∷ [];
  cohort_conn_assignments = (7, 1) ∷ [];
  conn_statement_counts = (1, 2) ∷ (0, 0) ∷ [];
}

schedule_statements_on_workers-cohorts_example :
    ((k : ℕ)
      → slice_at k both_on_one.split_statements
        ≡ filter (is_on both_on_one.cohort_conn_assignments k) two_tables)
    × All
        (λ s.
          (cohort : ℕ) × (conn : ℕ) × (tier_cohort s ≡ some cohort)
          × (lookup cohort both_on_one.cohort_conn_assignments ≡ some conn)
          × (conn < 2))
        two_tables
unfolding schedule_statements_on_workers
schedule_statements_on_workers-cohorts_example =
    schedule_statements_on_workers-cohorts (λ m. m) 2 two_tables both_on_one (omega arith)
      (λ m h. h) refl

-- A server that rejects tables.
abbrev environment_of : Bool → Environment
environment_of on_error_continue = record {
  exec = λ s. if s.object_type == "TABLE" then some "rejected" else none;
  interrupted = λ n. false;
  on_error_continue = on_error_continue;
  execute_in_parallel = true;
  has_tx = true;
}

abbrev new_worker : Worker
new_worker = record {
  executed = [];
  fatal_err = none;
  num_errors = 0;
  error_tables_metadata = [];
  error_tables_data = [];
}

execute_statements-continue_example :
    let (w, t) = execute_statements_for_conn (environment_of true) two_tables 0 new_worker in
    (w.executed ≡ two_tables) × (w.fatal_err ≡ none) × (w.num_errors % u32 ≡ 2) × (t ≡ commit)
execute_statements-continue_example =
    execute_statements-continue (environment_of true) two_tables 0 new_worker (λ n. refl) refl refl

execute_statements-stop_example :
    execute_statements_for_conn (environment_of false) (two_indexes ++ two_tables) 0 new_worker ≡ (
      record new_worker {
        executed = two_indexes ++ statement_of "TABLE" "" (1 ∷ 7 ∷ []) ∷ [];
        fatal_err = some "rejected";
      },
      rollback,
    )
execute_statements-stop_example =
    execute_statements-stop (environment_of false) two_indexes
      (statement_of "TABLE" "" (1 ∷ 7 ∷ [])) (statement_of "TABLE" "" (1 ∷ 7 ∷ []) ∷ []) "rejected"
      0 new_worker (λ n. refl) refl refl (refl, (refl, tt)) refl
