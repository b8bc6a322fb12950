-- ===== src/Execution/Interleaving/Results.antt =====
-- The canonical results: a row of test_runs that belongs to a plan stays that plan's row.
use ai_api_security_platform.Prelude.{ℕ, ◌≡◌, some, List, arith}
use ai_api_security_platform.Execution.Database.{Db}
use ai_api_security_platform.Execution.Claim.{acquire_statement, renew_statement, release_statement}
use ai_api_security_platform.Execution.Progress.{prepare_statement, mark_statement}
use ai_api_security_platform.Execution.Cancellation.{cancel_statement}
use ai_api_security_platform.Execution.Interleaving.{
  Event, Step, acquires, renews, releases, prepares, marks, cancels, records, Trace, stop, step,
}

module _ (plan run : ℕ) where
  runs-Step :
      {e : Event} {db db' : Db} → Step e db db' → db.runs plan ≡ some run → db'.runs plan ≡ some run
  unfolding acquire_statement renew_statement release_statement prepare_statement mark_statement
      cancel_statement
  runs-Step (acquires p owner lease t u e) x = ground arith
  runs-Step (renews h lease t u e) x = ground arith
  runs-Step (releases h t u e) x = ground arith
  runs-Step (prepares h t u e) x = ground arith
  runs-Step (marks h t u e) x = ground arith
  runs-Step (cancels p t u e) x = ground arith
  runs-Step (records h run t c n) x = ground arith

  pub runs-Trace :
      {es : List Event} {db db' : Db}
      → Trace db es db'
      → db.runs plan ≡ some run
      → db'.runs plan ≡ some run
  runs-Trace stop x = x
  runs-Trace (step s rest) x = runs-Trace rest (runs-Step s x)
