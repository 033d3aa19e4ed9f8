-- ===== src/Restore/Data.antt =====
-- restore/data.go: which tables a connection restores and which of them its helper agent is told,
-- and the restore of one table. What COPY and the server answer is a parameter.
pub mod Striding
pub mod Loading
use gpbackup.Base.{
  take, ℕ, zero, suc, ◌+◌, ◌-◌, ◌*◌, ◌/◌, ◌%◌, ◌≤◌, ◌<◌, String, ◌<>◌, len, slice, ◌≡◌, refl, sym,
  ap, subst, ◌∙◌, ◌≢◌, ◌↔◌, ◌⊎◌, inl, inr, Bool, true, false, not, ◌&&◌, ◌||◌, Option, none, some,
  List, [], ◌∷◌, ◌++◌, map, arith, ltb, leb, nat_beq, if◌then◌else◌, nat_beq_iff, ltb→lt, lt→ltb,
  leb→le, Bool-cases, Option-cases, &&_left, &&_right, Comparable, ◌==◌, nat_comparable,
  string_comparable, ==_refl, ==_sound, ==_sym, length, is_empty, get_elem?, drop, filter, All,
  length-append, filter-append, All-append, All-map,
}
use gpbackup.Base.Words.{ℤ, pos, negsuc, int_comparable}
use gpbackup.Base.Results.{Outcome, ok, fatal, ◌>>=◌}
use gpbackup.Toc.{CoordinatorDataEntry}
use gpbackup.Helper.Restore.{OidWithBatch}
use gpbackup.Restore.Resize.{ResizeInfo}

-- `for entryIdx := wait; entryIdx < len(entries); entryIdx += stride`
unfoldable pub strided {ℓ} : {A : Type ℓ} → (wait stride : ℕ) → List A → List A
strided wait stride [] = []
strided zero stride (entry ∷ entries) = entry ∷ strided (stride - 1) stride entries
strided (suc wait) stride (entry ∷ entries) = strided wait stride entries

unfoldable pub max_helpers : Bool → (num_conns total_tables : ℕ) → ℕ
max_helpers single_data_file num_conns total_tables =
    if single_data_file then 1 else if ltb num_conns total_tables then num_conns else total_tables

-- `for b := 0; b < batches; b++`
unfoldable pub batches_of : ℕ → (left batch : ℕ) → List OidWithBatch
batches_of oid zero batch = []
batches_of oid (suc left) batch =
    record { oid = oid; batch = batch } ∷ batches_of oid left (suc batch)

-- The batches of a table: a replicated table has one.
unfoldable pub entry_batches : ℕ → CoordinatorDataEntry → List OidWithBatch
unfolding batches_of
entry_batches batches entry =
    if entry.is_replicated
    then record { oid = entry.oid; batch = 0 } ∷ []
    else batches_of entry.oid batches 0

unfoldable pub oid_list_of : ℕ → List CoordinatorDataEntry → List OidWithBatch
unfolding entry_batches
oid_list_of batches [] = []
oid_list_of batches (entry ∷ entries) = entry_batches batches entry ++ oid_list_of batches entries

-- The list of the helper agent of a connection.
unfoldable pub helper_oid_list :
    Bool → (num_conns batches : ℕ) → List CoordinatorDataEntry → ℕ → List OidWithBatch
unfolding strided max_helpers oid_list_of
helper_oid_list single_data_file num_conns batches entries which_conn =
    oid_list_of batches
      (strided which_conn (max_helpers single_data_file num_conns (length entries)) entries)

-- The tables that a connection restores, in their order.
unfoldable pub worker_entries : ℕ → List CoordinatorDataEntry → ℕ → List CoordinatorDataEntry
unfolding strided
worker_entries num_conns entries which_conn = strided which_conn num_conns entries

-- The number of pipes that are there when an agent starts.
unfoldable pub create_initial_segment_pipes : Bool → ℕ → List OidWithBatch → ℕ
create_initial_segment_pipes single_data_file num_conns oid_list =
    if not single_data_file
    then 1
    else if ltb num_conns (length oid_list)
    then num_conns
    else length oid_list

-- The agent of the connection, by its index, when there are several.
unfoldable pub helper_idx : (max_helpers which_conn : ℕ) → List ℕ
helper_idx max_helpers which_conn = if ltb 1 max_helpers then which_conn ∷ [] else []

-- `is_version_6` says whether the server has version 6 or later, `agent_error` whether an agent
-- has left an error file, `copy_rows` what COPY returns for a batch (-1 rows after a signal),
-- `set_error` and `reset_error` how the statements on gp_enable_segment_copy_checking end, and the
-- others how the statements on the table's distribution do.
pub record TableHost : Type 0 where
  pub is_version_6 : Bool
  pub set_error : ℕ → Option String
  pub reset_error : Option String
  pub agent_error : ℕ → Option String
  pub copy_rows : ℕ → ℤ ⊎ String
  pub expand_error : Option String
  pub redistribute_error : Option String

-- The error of the function, and whether the agents were told to skip the table.
pub record TableResult : Type 0 where
  pub err : Option String
  pub skips : Bool

-- `/` on int64 by a positive number rounds to zero.
unfoldable pub divide_rows : ℤ → ℕ → ℤ
divide_rows (pos n) k = pos (n / k)
divide_rows (negsuc n) k = elim (suc n / k) [ zero ↦ pos 0 | suc m ↦ negsuc m ]

-- `+=` on the row counts, which stay far below 2^63.
unfoldable pub add_rows : ℤ → ℤ → ℤ
add_rows (pos a) (pos b) = pos (a + b)
add_rows (pos a) (negsuc b) = if ltb b a then pos (a - suc b) else negsuc (b - a)
add_rows (negsuc a) (pos b) = if ltb a b then pos (b - suc a) else negsuc (a - b)
add_rows (negsuc a) (negsuc b) = negsuc (suc (a + b))

-- `MustExec`: an error of the statement is a panic.
abbrev must_exec {ℓ} : {A : Type ℓ} → Option String → Outcome A → Outcome A
must_exec none next = next
must_exec (some e) next = fatal e

-- The loop over the batches: the rows, or the result with which the function returns.
unfoldable pub copy_batches :
    (uses_agents on_error_continue dist_by_enum : Bool)
    → TableHost
    → (left batch : ℕ) → ℤ
    → Outcome (ℤ ⊎ TableResult)
unfolding add_rows
copy_batches uses_agents on_error_continue dist_by_enum host zero batch rows = ok (inl rows)
copy_batches uses_agents on_error_continue dist_by_enum host (suc left) batch rows =
    must_exec (if dist_by_enum then host.set_error batch else none)
      (elim (if uses_agents then host.agent_error batch else none) [
        | some e ↦ ok (inr (record { err = some e; skips = false }))
        | none ↦ elim (host.copy_rows batch) [
          | inr e ↦ ok (
              inr (record {
                err = some e;
                skips = on_error_continue && (host.is_version_6 && uses_agents);
              }))
          | inl n ↦
              copy_batches uses_agents on_error_continue dist_by_enum host left (suc batch)
                (add_rows rows n)
        ]
      ])

unfoldable pub check_rows_restored : ℤ → ℤ → Option String
check_rows_restored rows_restored rows_backed_up =
    if rows_restored == rows_backed_up
    then none
    else some "Expected to restore another number of rows"

-- The data of a table is spread over the cluster once its rows are there.
spread_table : ResizeInfo → CoordinatorDataEntry → TableHost → Option String
spread_table info entry host =
    if info.is_resize || entry.dist_by_enum
    then (if entry.is_replicated && ltb info.orig_size info.dest_size
        then host.expand_error
        else host.redistribute_error)
    else none

-- What follows the loop over the batches.
finish_table : ResizeInfo → CoordinatorDataEntry → TableHost → ℤ → TableResult
unfolding divide_rows check_rows_restored spread_table
finish_table info entry host rows =
    let scales = entry.is_replicated && ltb info.dest_size info.orig_size in
    let backed_up =
      if scales then divide_rows entry.rows_copied info.orig_size else entry.rows_copied in
    let restored = if scales then divide_rows rows info.dest_size else rows in
    elim (check_rows_restored restored backed_up) [
      | some e ↦ record { err = some e; skips = false }
      | none ↦ record { err = spread_table info entry host; skips = false }
    ]

-- The RESET of every batch is deferred to the end of the function.
unfoldable pub restore_single_table_data :
    (single_data_file on_error_continue : Bool)
    → ResizeInfo
    → CoordinatorDataEntry
    → TableHost
    → Outcome TableResult
unfolding copy_batches finish_table
restore_single_table_data single_data_file on_error_continue info entry host =
    let batches = if entry.is_replicated then 1 else info.batches in
    copy_batches (single_data_file || info.is_resize) on_error_continue entry.dist_by_enum host
      batches 0 (pos 0)
    >>= λ copied.
        must_exec (if entry.dist_by_enum && ltb 0 batches then host.reset_error else none)
          (ok (elim copied [ inr result ↦ result | inl rows ↦ finish_table info entry host rows ]))
