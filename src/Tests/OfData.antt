-- ===== src/Tests/OfData.antt =====
-- The theorems on the data of tables at concrete inputs.
use gpbackup.Base.{
  ℕ, String, ◌≡◌, refl, ◌≢◌, Bool, true, false, not, none, some, List, [], ◌∷◌, map, arith, ltb,
  if◌then◌else◌, ◌==◌, nat_comparable, string_comparable,
}
use gpbackup.Base.Words.{pos}
use gpbackup.Toc.{CoordinatorDataEntry}
use gpbackup.Restore.Data.{max_helpers, helper_oid_list, worker_entries}
use gpbackup.Restore.Data.Striding.{
  sum_below, pipes_to_read, passing, worker_entries-total, helper_oid_list-worker_entries,
}
use gpbackup.Restore.Data.Loading.{
  LoadJob, agent_err, other_err, finished, cancelled, table_name, load_tables, nothing_loaded,
}
use gpbackup.Restore.Data.Loading.Errors.{load_tables-continue, load_tables-stop}
use gpbackup.Base.Counting.{contains}

abbrev data_entry : ℕ → String → CoordinatorDataEntry
data_entry oid name = record {
  schema = "public";
  name = name;
  oid = oid;
  attribute_string = "";
  rows_copied = pos 1;
  partition_root = "";
  is_replicated = false;
  dist_by_enum = false;
}

abbrev three_entries : List CoordinatorDataEntry
three_entries = data_entry 1 "a" ∷ data_entry 2 "b" ∷ data_entry 3 "c" ∷ []

abbrev is_not_b : CoordinatorDataEntry → Bool
is_not_b entry = not (entry.name == "b")

worker_entries-total_example :
    sum_below (λ which_conn. passing is_not_b (worker_entries 2 three_entries which_conn)) 2
    ≡ passing is_not_b three_entries
worker_entries-total_example = worker_entries-total is_not_b 2 three_entries (omega arith)

helper_oid_list-worker_entries_example :
    pipes_to_read 2 (worker_entries 2 three_entries 1)
    ≡ (if ltb 1 (max_helpers false 2 3) then helper_oid_list false 2 2 three_entries 1 else [])
helper_oid_list-worker_entries_example =
    helper_oid_list-worker_entries 2 2 three_entries 1 (omega arith)

-- The restore of b fails, and the TRUNCATE of a.
abbrev job_of : Bool → LoadJob
job_of on_error_continue = record {
  on_error_continue = on_error_continue;
  incremental = false;
  truncate_table = true;
  max_helpers = 1;
  redirect_schema = "";
  truncate_error = λ entry. if entry.name == "a" then some "locked" else none;
  outcome = λ entry. if entry.name == "b" then some other_err else none;
}

other_fails : (entry : CoordinatorDataEntry) → (job_of true).outcome entry ≢ some agent_err
other_fails entry h = ground (arith, h)

load_tables-continue_example :
    ((load_tables (job_of true) three_entries nothing_loaded).loop_end ≡ finished)
    × ((load_tables (job_of true) three_entries nothing_loaded).restored
        ≡ map (table_name "") (data_entry 1 "a" ∷ data_entry 3 "c" ∷ []))
    × ((load_tables (job_of true) three_entries nothing_loaded).num_errors ≡ pos 1)
    × ((name : String)
        → contains name (load_tables (job_of true) three_entries nothing_loaded).error_tables
          ≡ contains name (map (table_name "") (data_entry 2 "b" ∷ [])))
    × ((load_tables (job_of true) three_entries nothing_loaded).logged ≡ "locked" ∷ [])
load_tables-continue_example =
    load_tables-continue (job_of true) three_entries refl other_fails (omega arith)

load_tables-stop_example :
    ((load_tables (job_of false) three_entries nothing_loaded).loop_end ≡ cancelled)
    × ((load_tables (job_of false) three_entries nothing_loaded).restored
        ≡ map (table_name "") (data_entry 1 "a" ∷ []))
    × ((load_tables (job_of false) three_entries nothing_loaded).error_tables ≡ [])
    × ((load_tables (job_of false) three_entries nothing_loaded).num_errors ≡ pos 1)
    × ((load_tables (job_of false) three_entries nothing_loaded).logged ≡ "locked" ∷ [])
load_tables-stop_example =
    load_tables-stop (job_of false) (data_entry 1 "a" ∷ []) (data_entry 3 "c" ∷ [])
      (data_entry 2 "b") other_err refl (refl, tt) refl
