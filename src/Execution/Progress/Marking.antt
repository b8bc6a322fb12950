-- ===== src/Execution/Progress/Marking.antt =====
-- What a mark that succeeds says of the tables.
use ai_api_security_platform.Prelude.{ℕ, ◌≡◌, true, none, some, List, In, ok, arith, ==_refl}
use ai_api_security_platform.Execution.Database.{network_started, Db, commit, Attempt, acknowledged}
use ai_api_security_platform.Execution.Answers.{retry-IsAnswered}
use ai_api_security_platform.Execution.Claim.{ClaimHandle, is_current}
use ai_api_security_platform.Execution.Progress.{
  progress_coordination, ProgressState, mark_statement, mark_network_started,
}

-- The plan is not cancelled, its record says that this generation has started at the second reading of
-- the clock, and the handle holds its claim at the first reading.
abbrev pub IsMarked : ClaimHandle → ℕ → ℕ → Db → Type 0
IsMarked h at stamp db =
    (db.cancellations h.execution_plan_id ≡ none)
    × (db.progress h.execution_plan_id
        ≡ some (record {
          fencing_generation = h.fencing_generation;
          phase = network_started;
          updated_at = stamp;
        }))
    × (is_current h at db ≡ true)

mark_statement-IsMarked :
    (h : ClaimHandle) (t u : ℕ) (db db' : Db) (s : ProgressState)
    → mark_statement h t u db ≡ commit s db'
    → IsMarked h t u db'
unfolding mark_statement is_current
mark_statement-IsMarked h t u db db' s e =
    (ground arith, ground (arith, ==_refl h.execution_plan_id), ground arith)

module _ (h : ClaimHandle) where
  -- A mark that succeeds does so in an attempt that the database acknowledged: it leaves the plan
  -- uncancelled and started at the handle's generation, stamped with that attempt's second reading of
  -- the clock, and at its first reading the handle still holds its claim.
  pub mark-IsMarked :
      (max_retries : ℕ) (env : List Attempt) (db : Db) (s : ProgressState)
      → (mark_network_started max_retries h env db).result ≡ ok s
      → (at : ℕ) × (stamp : ℕ) × In (acknowledged at stamp) env
        × IsMarked h at stamp (mark_network_started max_retries h env db).db
  unfolding mark_network_started
  mark-IsMarked max_retries env db s e =
      let done = retry-IsAnswered (mark_statement h) max_retries progress_coordination env db s e in
      (
        done.at,
        done.stamp,
        done.attempted,
        mark_statement-IsMarked h done.at done.stamp done.before _ s done.committed,
      )
