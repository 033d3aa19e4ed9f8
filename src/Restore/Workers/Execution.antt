-- ===== src/Restore/Workers/Execution.antt =====
-- restore/parallel.go: what one connection executes, with and without --on-error-continue.
use gpbackup.Base.{
  ℕ, ◌+◌, ◌%◌, String, ◌≡◌, refl, sym, ◌∙◌, true, false, ◌&&◌, none, some, List, [], ◌∷◌, ◌++◌,
  arith, if◌then◌else◌, nat_comparable, string_comparable, is_empty, All,
}
use mathlib.Core.List.{append_assoc, append-nil}
use gpbackup.Base.Words.{u32}
use gpbackup.Toc.{StatementWithType}
use gpbackup.Restore.Workers.{
  TxEnd, no_tx, commit, rollback, Worker, Environment, exec_statement, execute_statements_for_conn,
}

-- How many of the statements the server rejects.
abbrev pub failures : Environment → List StatementWithType → ℕ
failures env [] = 0
failures env (s ∷ ss) = (elim (env.exec s) [ none ↦ 0 | some e ↦ 1 ]) + failures env ss

abbrev pub tx_end : Environment → TxEnd → TxEnd
tx_end env t = if env.execute_in_parallel && env.has_tx then t else no_tx

abbrev pub NeverInterrupted : Environment → Type 0
NeverInterrupted env = (n : ℕ) → env.interrupted n ≡ false

module _ (env : Environment) (calm : NeverInterrupted env) where
  execute-cons :
      (s : StatementWithType) (ss : List StatementWithType) (n : ℕ) (w : Worker)
      → w.fatal_err ≡ none
      → execute_statements_for_conn env (s ∷ ss) n w
        ≡ execute_statements_for_conn env ss (n + 1) (exec_statement env s w)
  unfolding execute_statements_for_conn
  execute-cons s ss n w f = ground (arith, calm n, f)

  execute-cons_failed :
      (s : StatementWithType) (ss : List StatementWithType) (n : ℕ) (w : Worker) (e : String)
      → w.fatal_err ≡ some e
      → execute_statements_for_conn env (s ∷ ss) n w ≡ (w, tx_end env rollback)
  unfolding execute_statements_for_conn
  execute-cons_failed s ss n w e f = ground (arith, calm n, f)

  exec_continue :
      (s : StatementWithType) (w : Worker)
      → env.on_error_continue ≡ true
      → w.fatal_err ≡ none
      → ((exec_statement env s w).executed ≡ w.executed ++ s ∷ [])
        × ((exec_statement env s w).fatal_err ≡ none)
        × ((exec_statement env s w).num_errors % u32
            ≡ (w.num_errors + (elim (env.exec s) [ none ↦ 0 | some e ↦ 1 ])) % u32)
  unfolding exec_statement
  exec_continue s w on f = ground (arith, on, f)

  exec_ok :
      (s : StatementWithType) (w : Worker)
      → env.exec s ≡ none
      → exec_statement env s w ≡ record w { executed = w.executed ++ s ∷ [] }
  unfolding exec_statement
  exec_ok s w h = rw (h, exec_statement)

  exec_fails :
      (s : StatementWithType) (w : Worker) (e : String)
      → env.on_error_continue ≡ false
      → env.exec s ≡ some e
      → exec_statement env s w ≡ record w { executed = w.executed ++ s ∷ []; fatal_err = some e }
  unfolding exec_statement
  exec_fails s w e off h = ground (arith, off, h)

-- With --on-error-continue a worker that is not interrupted sends all its statements in order,
-- counts those that fail (as an int32), reports no fatal error and commits its transaction.
pub execute_statements-continue :
    (env : Environment) (ss : List StatementWithType) (n : ℕ) (w : Worker)
    → NeverInterrupted env
    → env.on_error_continue ≡ true
    → w.fatal_err ≡ none
    → let (w', t) = execute_statements_for_conn env ss n w in
      (w'.executed ≡ w.executed ++ ss)
      × (w'.fatal_err ≡ none)
      × (w'.num_errors % u32 ≡ (w.num_errors + failures env ss) % u32)
      × (t ≡ tx_end env commit)
execute_statements-continue env [] n w calm on f =
    unfold execute_statements_for_conn in (sym (append-nil _), f, omega arith, refl)
execute_statements-continue env (s ∷ ss) n w calm on f =
    let (sent, none_yet, counted) = exec_continue env calm s w on f in
    let (executed, fatal, errors, end) =
      execute_statements-continue env ss (n + 1) (exec_statement env s w) calm on none_yet in
    rw (execute-cons env calm s ss n w f)
      (executed ∙ rw (sent, append_assoc), fatal, errors ∙ omega (arith, counted), end)

-- Without it the worker stops behind the first statement that fails, whose error is fatal. Its
-- transaction is rolled back if another statement was waiting, and is committed if not.
pub execute_statements-stop :
    (env : Environment) (good : List StatementWithType) (bad : StatementWithType)
    (rest : List StatementWithType) (e : String) (n : ℕ) (w : Worker)
    → NeverInterrupted env
    → env.on_error_continue ≡ false
    → w.fatal_err ≡ none
    → All (λ s. env.exec s ≡ none) good
    → env.exec bad ≡ some e
    → execute_statements_for_conn env (good ++ bad ∷ rest) n w ≡ (
      record w { executed = w.executed ++ (good ++ bad ∷ []); fatal_err = some e },
      tx_end env (if is_empty rest then commit else rollback),
    )
execute_statements-stop env [] bad [] e n w calm off f ok h =
    rw (execute-cons env calm bad [] n w f, exec_fails env calm bad w e off h)
      (unfold execute_statements_for_conn in refl)
execute_statements-stop env [] bad (r ∷ rest) e n w calm off f ok h =
    rw (execute-cons env calm bad (r ∷ rest) n w f, exec_fails env calm bad w e off h)
      (execute-cons_failed env calm r rest (n + 1) _ e refl)
execute_statements-stop env (s ∷ good) bad rest e n w calm off f ok h =
    rw (execute-cons env calm s (good ++ bad ∷ rest) n w f, exec_ok env calm s w ok.0)
      (execute_statements-stop env good bad rest e (n + 1)
          (record w { executed = w.executed ++ s ∷ [] }) calm off f ok.1 h
        ∙ rw append_assoc)
