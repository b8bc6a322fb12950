-- ===== src/Execution/Errors.antt =====
-- The errors of the calls whose statement never refuses: the attempts have run out.
use ai_api_security_platform.Prelude.{
  ℕ, zero, suc, ◌≡◌, ◌≢◌, refl, List, [], ◌∷◌, Result, ok, err, arith,
}
use ai_api_security_platform.Execution.Database.{
  Db, Outcome, exception, raise, commit, Transaction, Attempt, aborted, unacknowledged,
  acknowledged, Reply, after_lost, after_acknowledged, retry,
}
use ai_api_security_platform.Execution.Claim.{ClaimHandle}
use ai_api_security_platform.Execution.Progress.{
  ProgressError, progress_coordination, progress_cancelled, Preparation, prepared, found_in_doubt,
  found_lost, prepare_statement, prepare_attempt, prepared_or_error,
}
use ai_api_security_platform.Execution.Cancellation.{
  CancellationError, cancellation_coordination, read_statement, get_cancellation,
}

module _ {E R : Type 0} (stmt : Transaction E R) (e late : E)
    (never : (t u : ℕ) (db : Db) → stmt t u db ≢ raise e) where
  lost_late :
      (again : Db → Reply E R)
      → ((d : Db) → (again d).result ≡ err e → e ≡ late)
      → (t u : ℕ) (env : List Attempt) (db : Db) (o : Outcome E R) → stmt t u db ≡ o
      → (after_lost again env db o).result ≡ err e
      → e ≡ late
  lost_late again ih t u env db exception q h = ih db h
  lost_late again ih t u env db (raise x) q h = absurd (never t u db (cc (q, h)))
  lost_late again ih t u env db (commit r db') q h = ih db' h

  acknowledged_late :
      (again : Db → Reply E R)
      → ((d : Db) → (again d).result ≡ err e → e ≡ late)
      → (t u : ℕ) (env : List Attempt) (db : Db) (o : Outcome E R) → stmt t u db ≡ o
      → (after_acknowledged again env db o).result ≡ err e
      → e ≡ late
  acknowledged_late again ih t u env db exception q h = ih db h
  acknowledged_late again ih t u env db (raise x) q h = absurd (never t u db (cc (q, h)))
  acknowledged_late again ih t u env db (commit r db') q h = cc

  retry_late :
      (n : ℕ) (env : List Attempt) (db : Db) → (retry n late stmt env db).result ≡ err e → e ≡ late
  unfolding retry
  retry_late zero env db h = cc
  retry_late (suc n) [] db h = cc
  retry_late (suc n) (aborted ∷ env) db h = retry_late n env db h
  retry_late (suc n) (unacknowledged t u ∷ env) db h =
      lost_late (retry n late stmt env) (retry_late n env) t u env db (stmt t u db) refl h
  retry_late (suc n) (acknowledged t u ∷ env) db h =
      acknowledged_late (retry n late stmt env) (retry_late n env) t u env db (stmt t u db) refl h

read_statement-commits :
    (plan : ℕ) (e : CancellationError) (t u : ℕ) (db : Db) → read_statement plan t u db ≢ raise e
unfolding read_statement
read_statement-commits plan e t u db q = absurd (ground (arith, q))

pub get_cancellation_error :
    (n plan : ℕ) (env : List Attempt) (db : Db) (e : CancellationError)
    → (get_cancellation n plan env db).result ≡ err e
    → e ≡ cancellation_coordination
unfolding get_cancellation
get_cancellation_error n plan env db e h =
    retry_late (read_statement plan) e cancellation_coordination (read_statement-commits plan e) n
      env db h

prepare_statement-commits :
    (h : ClaimHandle) (e : ProgressError) (t u : ℕ) (db : Db) → prepare_statement h t u db ≢ raise e
unfolding prepare_statement
prepare_statement-commits h e t u db q = absurd (ground (arith, q))

prepared_or_error_cases :
    (r : Result ProgressError Preparation)
    → prepared_or_error r ≡ err progress_cancelled
    → r ≡ err progress_cancelled
prepared_or_error_cases (ok (prepared s)) q = absurd (ground (arith, q))
prepared_or_error_cases (ok found_in_doubt) q = absurd (ground (arith, q))
prepared_or_error_cases (ok found_lost) q = absurd (ground (arith, q))
prepared_or_error_cases (err e) q = cc

pub prepare_attempt_not_cancelled :
    (n : ℕ) (h : ClaimHandle) (env : List Attempt) (db : Db)
    → (prepare_attempt n h env db).result ≢ err progress_cancelled
unfolding prepare_attempt
prepare_attempt_not_cancelled n h env db q =
    let late =
      retry_late (prepare_statement h) progress_cancelled progress_coordination
        (prepare_statement-commits h progress_cancelled) n env db (prepared_or_error_cases _ q) in
    absurd (ground (arith, late))
