-- ===== src/Restore/Data/Loading.antt =====
-- restore/data.go: the loop of a connection over its tables in restoreDataFromTimestamp, as long as
-- no other connection cancels the restore and no signal comes.
pub mod Errors
pub mod Steps
use gpbackup.Base.{
  take, ℕ, zero, suc, ◌+◌, ◌-◌, ◌*◌, ◌/◌, ◌%◌, ◌≤◌, ◌<◌, String, ◌<>◌, len, slice, ◌≡◌, refl, sym,
  ap, subst, ◌∙◌, ◌≢◌, ◌↔◌, ◌⊎◌, inl, inr, Bool, true, false, not, ◌&&◌, ◌||◌, Option, none, some,
  List, [], ◌∷◌, ◌++◌, map, arith, ltb, leb, nat_beq, if◌then◌else◌, nat_beq_iff, ltb→lt, lt→ltb,
  leb→le, Bool-cases, Option-cases, &&_left, &&_right, Comparable, ◌==◌, nat_comparable,
  string_comparable, ==_refl, ==_sound, ==_sym, length, is_empty, get_elem?, drop, filter, All,
  length-append, filter-append, All-append, All-map,
}
use gpbackup.Base.Counting.{contains, contains-append}
use mathlib.Core.List.{append_assoc, append-nil}
use gpbackup.Base.Words.{ℤ, pos, increment_i32}
use gpbackup.Toc.{CoordinatorDataEntry}
use gpbackup.Utils.Text.{make_fqn}

-- The errors of a table: an agent has ended (utils.AgentErr), or another one.
pub data TableError : Type 0 where
  agent_err other_err : TableError

-- How the loop ends: behind the last table, with its own return, or with one that cancels the
-- other connections too.
pub data LoopEnd : Type 0 where
  finished left cancelled : LoopEnd

-- The flags and arguments of the loop. `truncate_error` says how the TRUNCATE of a table ends,
-- `outcome` what restoreSingleTableData returns.
pub record LoadJob : Type 0 where
  pub on_error_continue : Bool
  pub incremental : Bool
  pub truncate_table : Bool
  pub max_helpers : ℕ
  pub redirect_schema : String
  pub truncate_error : CoordinatorDataEntry → Option String
  pub outcome : CoordinatorDataEntry → Option TableError

-- `num_errors` is an int32, `truncated` has the tables that a TRUNCATE has emptied, and `logged` the
-- errors of those that failed.
pub record Loaded : Type 0 where
  pub truncated : List String
  pub logged : List String
  pub restored : List String
  pub error_tables : List String
  pub num_errors : ℤ
  pub loop_end : LoopEnd

unfoldable pub table_name : String → CoordinatorDataEntry → String
unfolding make_fqn
table_name redirect_schema entry =
    if redirect_schema == ""
    then make_fqn entry.schema entry.name
    else make_fqn redirect_schema entry.name

abbrev pub add_table : String → List String → List String
add_table name tables = if contains name tables then tables else tables ++ name ∷ []

-- The TRUNCATE before the restore. Its error is assigned to a variable of the inner block and goes
-- no further than the log: `err` stays nil, and the table is restored all the same.
unfoldable pub truncate_first : LoadJob → CoordinatorDataEntry → Loaded → Loaded
unfolding table_name
truncate_first job entry st =
    if job.incremental || job.truncate_table
    then elim (job.truncate_error entry) [
      | none ↦ record st { truncated = st.truncated ++ table_name job.redirect_schema entry ∷ [] }
      | some e ↦ record st { logged = st.logged ++ e ∷ [] }
    ]
    else st

-- The fate of a table whose restore has failed.
unfoldable pub fail_table : LoadJob → TableError → String → Loaded → Loaded
fail_table job agent_err name st = record st {
  num_errors = increment_i32 st.num_errors;
  loop_end = if job.on_error_continue && ltb 1 job.max_helpers then left else cancelled;
}
fail_table job other_err name st =
    if job.on_error_continue
    then record st {
      num_errors = increment_i32 st.num_errors;
      error_tables = add_table name st.error_tables;
    }
    else record st { num_errors = increment_i32 st.num_errors; loop_end = cancelled }

unfoldable pub load_table : LoadJob → CoordinatorDataEntry → Loaded → Loaded
unfolding table_name truncate_first fail_table
load_table job entry st =
    let name = table_name job.redirect_schema entry in
    let ready = truncate_first job entry st in
    elim (job.outcome entry) [
      | none ↦ record ready { restored = ready.restored ++ name ∷ [] }
      | some e ↦ fail_table job e name ready
    ]

unfoldable pub load_tables : LoadJob → List CoordinatorDataEntry → Loaded → Loaded
unfolding load_table
load_tables job [] st = st
load_tables job (entry ∷ entries) st =
    let next = load_table job entry st in
    elim next.loop_end [ finished ↦ load_tables job entries next | _ ↦ next ]

unfoldable pub nothing_loaded : Loaded
nothing_loaded = record {
  truncated = [];
  logged = [];
  restored = [];
  error_tables = [];
  num_errors = pos 0;
  loop_end = finished;
}

abbrev pub is_failure : Option TableError → Bool
is_failure none = false
is_failure (some e) = true
