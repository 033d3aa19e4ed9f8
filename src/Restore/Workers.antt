-- ===== src/Restore/Workers.antt =====
-- restore/parallel.go: how predata statements are split among connections, and how one connection
-- executes its statements.
pub mod Cohorts
pub mod Execution
use gpbackup.Base.{
  ℕ, zero, suc, ◌+◌, ◌-◌, ◌*◌, ◌/◌, ◌%◌, ◌≤◌, ◌<◌, String, ◌<>◌, len, slice, ◌≡◌, refl, sym, ap,
  subst, ◌∙◌, ◌≢◌, ◌↔◌, ◌⊎◌, inl, inr, Bool, true, false, not, ◌&&◌, ◌||◌, Option, none, some, List,
  [], ◌∷◌, ◌++◌, map, arith, ltb, leb, nat_beq, if◌then◌else◌, nat_beq_iff, ltb→lt, lt→ltb, leb→le,
  Bool-cases, Option-cases, &&_left, &&_right, Comparable, ◌==◌, nat_comparable, string_comparable,
  ==_refl, ==_sound, ==_sym, length, is_empty, get_elem?, drop, filter, All, length-append,
  filter-append, All-append, All-map,
}
use gpbackup.Base.Counting.{
  contains, count, remove, IsDistinct, Included, count-append, contains-append, contains→count,
  count→contains, not-contains→count, length-le_of_Included, Included-of_length,
}
use gpbackup.Base.Maps.{GoMap, keys, lookup, put, delete, lookup-put, lookup-none}
use gpbackup.Base.Results.{Outcome, ok, fatal, ◌>>=◌, ◌>>◌, fatal_if, >>-eq-ok}
use gpbackup.Base.Words.{u32}
use gpbackup.Toc.{StatementWithType}
use gpbackup.Restore.Batches.{slice_at}

-- `m[k]` of a map to numbers: a missing key reads as 0.
abbrev pub count_at : ℕ → GoMap ℕ ℕ → ℕ
count_at k m = elim (lookup k m) [ none ↦ 0 | some n ↦ n ]

-- The loop of `findLeastBusyConn` over the entries in the order of their visit.
least_busy_from : ℕ → ℕ → GoMap ℕ ℕ → ℕ
least_busy_from least_busy_conn min_statements [] = least_busy_conn
least_busy_from least_busy_conn min_statements ((conn, count) ∷ m) =
    least_busy_from (if ltb count min_statements then conn else least_busy_conn)
      (if ltb count min_statements then count else min_statements) m

unfoldable pub find_least_busy_conn : GoMap ℕ ℕ → GoMap ℕ ℕ → ℕ
unfolding least_busy_from
find_least_busy_conn counts visited = least_busy_from 1 (count_at 1 counts) visited

-- The maps of `scheduleStatementsOnWorkers`.
pub record Schedule : Type 0 where
  pub split_statements : GoMap ℕ (List StatementWithType)
  pub cohort_conn_assignments : GoMap ℕ ℕ
  pub conn_statement_counts : GoMap ℕ ℕ

-- Older backups have no tier: cohort 0. A tier of one number has no index 1, which is a panic.
unfoldable pub cohort_of : StatementWithType → Outcome ℕ
cohort_of statement = elim statement.tier [
  | [] ↦ ok 0
  | t ∷ [] ↦ fatal "index out of range"
  | t ∷ c ∷ rest ↦ ok c
]

abbrev pub push_statement : ℕ → StatementWithType → Schedule → Schedule
push_statement conn s st = record st {
  split_statements = put conn (slice_at conn st.split_statements ++ s ∷ []) st.split_statements;
  conn_statement_counts =
      put conn (count_at conn st.conn_statement_counts + 1) st.conn_statement_counts;
}

-- `visit` gives the order in which the runtime ranges over the counts.
unfoldable pub place_statement :
    (GoMap ℕ ℕ → GoMap ℕ ℕ) → Schedule → ℕ → StatementWithType → Schedule
unfolding find_least_busy_conn
place_statement visit st cohort s = elim (lookup cohort st.cohort_conn_assignments) [
  | some conn ↦ push_statement conn s st
  | none ↦
      let conn = find_least_busy_conn st.conn_statement_counts (visit st.conn_statement_counts) in
      push_statement conn s
        (record st { cohort_conn_assignments = put cohort conn st.cohort_conn_assignments })
]

schedule_from : (GoMap ℕ ℕ → GoMap ℕ ℕ) → Schedule → List StatementWithType → Outcome Schedule
schedule_from visit st [] = ok st
schedule_from visit st (s ∷ statements) =
    cohort_of s >>= λ cohort. schedule_from visit (place_statement visit st cohort s) statements

zero_counts : ℕ → GoMap ℕ ℕ
zero_counts zero = []
zero_counts (suc n) = (n, 0) ∷ zero_counts n

unfoldable pub schedule_statements_on_workers :
    (GoMap ℕ ℕ → GoMap ℕ ℕ) → List StatementWithType → ℕ → Outcome Schedule
unfolding schedule_from cohort_of place_statement zero_counts
schedule_statements_on_workers visit statements num_conns =
    schedule_from visit
      (record {
        split_statements = [];
        cohort_conn_assignments = [];
        conn_statement_counts = zero_counts num_conns;
      })
      statements

-- How the worker's transaction ends; `none` is a connection that had no transaction.
pub data TxEnd : Type 0 where
  no_tx commit rollback : TxEnd

-- What a worker has done: the statements that it sent, and the program's counters and sets.
pub record Worker : Type 0 where
  pub executed : List StatementWithType
  pub fatal_err : Option String
  pub num_errors : ℕ
  pub error_tables_metadata : List String
  pub error_tables_data : List String

-- What the worker reads: the error of a statement that the server rejects, whether the process
-- was terminated or another worker has failed when it takes its n-th statement, and the flags.
pub record Environment : Type 0 where
  pub exec : StatementWithType → Option String
  pub interrupted : ℕ → Bool
  pub on_error_continue : Bool
  pub execute_in_parallel : Bool
  pub has_tx : Bool

abbrev add_key : String → List String → List String
add_key k ks = if contains k ks then ks else k ∷ ks

-- The branch of `err != nil`. The counter is an int32.
unfoldable pub note_error : Environment → StatementWithType → String → Worker → Worker
note_error env s err w =
    if env.on_error_continue
    then record w {
      num_errors = (w.num_errors + 1) % u32;
      error_tables_metadata =
          if s.object_type == "TABLE"
          then add_key (s.schema <> ("." <> s.name)) w.error_tables_metadata
          else w.error_tables_metadata;
      error_tables_data =
          if s.object_type == "QD ONLY TABLE DATA"
          then add_key (s.schema <> ("." <> s.name)) w.error_tables_data
          else w.error_tables_data;
    }
    else record w { fatal_err = some err }

abbrev is_set : Option String → Bool
is_set none = false
is_set (some e) = true

unfoldable pub exec_statement : Environment → StatementWithType → Worker → Worker
unfolding note_error
exec_statement env s w =
    let sent : Worker = record w { executed = w.executed ++ s ∷ [] } in
    elim (env.exec s) [ none ↦ sent | some err ↦ note_error env s err sent ]

end_tx : Environment → TxEnd → TxEnd
end_tx env t = if env.execute_in_parallel && env.has_tx then t else no_tx

unfoldable pub execute_statements_for_conn :
    Environment → List StatementWithType → ℕ → Worker → Worker × TxEnd
unfolding end_tx exec_statement
execute_statements_for_conn env [] n w = (w, end_tx env commit)
execute_statements_for_conn env (s ∷ statements) n w =
    let rest = execute_statements_for_conn env statements (n + 1) (exec_statement env s w) in
    if env.interrupted n || is_set w.fatal_err then (w, end_tx env rollback) else rest
