-- ===== src/PlanExecution/Traces/Finish.antt =====
-- The steps of `_finish` and of the executor's handlers.
use ai_api_security_platform.Prelude.{
  ℕ, ◌≡◌, refl, true, Option, none, some, [], ◌∷◌, Result, ok, err, arith,
}
use ai_api_security_platform.Network.Gateway.{GatewayResult}
use ai_api_security_platform.Executor.{ExecutionError, blocked, network_failed, uncaught}
use ai_api_security_platform.Execution.Database.{Db, Attempt, aborted, acknowledged}
use ai_api_security_platform.Execution.Database
use ai_api_security_platform.Execution.Claim.{
  ClaimError, claim_lost, claim_coordination, claim_unavailable, invalid_owner, invalid_lease,
  ClaimHandle, is_current, assert_current_in,
}
use ai_api_security_platform.Execution.Interleaving.{recorded, records, Trace, stop, step}
use ai_api_security_platform.PlanExecution.Surroundings.{
  Persisted, stored, unacknowledged, not_stored, Surroundings, Status, completed, failed_status,
  finishing,
}
use ai_api_security_platform.PlanExecution.Sending.{
  write_run, persist, insert_run, asserted, finish, conclude,
}
use ai_api_security_platform.PlanExecution.Traces.{
  IsTraced, AreWorkers, fails-IsTraced, returns-IsTraced, if-IsTraced, noted-IsTraced,
  Reaches-IsTraced, meanwhile-IsTraced, post_network_failure-IsTraced,
}

-- An assertion that passes read the clock while the claim was current.
pub assert_current_in_ok :
    (h : ClaimHandle) (a : Attempt) (db : Db) (plan : ℕ)
    → assert_current_in h a db ≡ ok plan
    → (t : ℕ) × (is_current h t db ≡ true)
unfolding assert_current_in
assert_current_in_ok h aborted db plan e = cc
assert_current_in_ok h (Database.unacknowledged t u) db plan e = cc
assert_current_in_ok h (acknowledged t u) db plan e = (t, ground arith)

module _ (n : ℕ) (s : Surroundings) (h : ClaimHandle) where
  write_run-Step :
      (t : ℕ) (db : Db)
      → is_current h t db ≡ true
      → db.runs h.execution_plan_id ≡ none
      → Trace db (recorded h.execution_plan_id ∷ []) (write_run n s h.execution_plan_id db)
  write_run-Step t db e empty = step (records h s.new_run t e empty) stop

  write_run_stored : (plan : ℕ) (db : Db) → (write_run n s plan db).runs plan ≡ some s.new_run
  write_run_stored plan db = ground arith

  persist-IsTraced :
      (p : Persisted) (st : Status) (t : ℕ) (db : Db)
      → is_current h t db ≡ true
      → db.runs h.execution_plan_id ≡ none
      → IsTraced h.execution_plan_id db (persist n s p h.execution_plan_id st db)
  persist-IsTraced stored st t db e empty =
      Reaches-IsTraced h.execution_plan_id (_, write_run-Step t db e empty)
        (noted-IsTraced h.execution_plan_id _ refl (
          noted-IsTraced h.execution_plan_id _ refl
            (returns-IsTraced h.execution_plan_id _ _ (write_run_stored h.execution_plan_id db))))
  persist-IsTraced unacknowledged st t db e empty =
      Reaches-IsTraced h.execution_plan_id (_, write_run-Step t db e empty)
        (noted-IsTraced h.execution_plan_id _ refl (
          noted-IsTraced h.execution_plan_id _ refl
            (post_network_failure-IsTraced h.execution_plan_id s _ _)))
  persist-IsTraced not_stored st t db e empty =
      post_network_failure-IsTraced h.execution_plan_id s _ db

  insert_run-IsTraced :
      (o : Option ℕ) (st : Status) (t : ℕ) (db : Db)
      → is_current h t db ≡ true
      → db.runs h.execution_plan_id ≡ o
      → IsTraced h.execution_plan_id db (insert_run n s o h.execution_plan_id st db)
  insert_run-IsTraced none st t db e empty = persist-IsTraced s.persisted st t db e empty
  insert_run-IsTraced (some r) st t db e there =
      if-IsTraced h.execution_plan_id (s.lookup_fails finishing)
        (post_network_failure-IsTraced h.execution_plan_id s _ db)
        (returns-IsTraced h.execution_plan_id r db there)

  asserted-IsTraced :
      (r : Result ClaimError ℕ) (st : Status) (db : Db)
      → assert_current_in h s.assertion db ≡ r
      → IsTraced h.execution_plan_id db (asserted n s r h.execution_plan_id st db)
  asserted-IsTraced (err claim_lost) st db e =
      post_network_failure-IsTraced h.execution_plan_id s _ db
  asserted-IsTraced (err claim_coordination) st db e =
      post_network_failure-IsTraced h.execution_plan_id s _ db
  asserted-IsTraced (err claim_unavailable) st db e = fails-IsTraced h.execution_plan_id _ db
  asserted-IsTraced (err invalid_owner) st db e = fails-IsTraced h.execution_plan_id _ db
  asserted-IsTraced (err invalid_lease) st db e = fails-IsTraced h.execution_plan_id _ db
  asserted-IsTraced (ok plan) st db e =
      let (t, current) = assert_current_in_ok h s.assertion db plan e in
      insert_run-IsTraced (db.runs h.execution_plan_id) st t db current refl

  module _ (workers : AreWorkers s) where
    finish-IsTraced :
        (st : Status) (db : Db)
        → IsTraced h.execution_plan_id db (finish n s h h.execution_plan_id st db)
    unfolding finish
    finish-IsTraced st db =
        meanwhile-IsTraced h.execution_plan_id s workers finishing db _
          (λ d _. asserted-IsTraced _ st d refl)

    pub conclude-IsTraced :
        (r : Result ExecutionError GatewayResult) (db : Db)
        → IsTraced h.execution_plan_id db (conclude n s r h h.execution_plan_id db)
    unfolding conclude
    conclude-IsTraced (err (blocked code)) db =
        if-IsTraced h.execution_plan_id (s.audit_stored code)
          (noted-IsTraced h.execution_plan_id _ refl
            (noted-IsTraced h.execution_plan_id _ refl (fails-IsTraced h.execution_plan_id _ db)))
          (fails-IsTraced h.execution_plan_id _ db)
    conclude-IsTraced (err (network_failed x)) db = finish-IsTraced failed_status db
    conclude-IsTraced (err uncaught) db = fails-IsTraced h.execution_plan_id _ db
    conclude-IsTraced (ok x) db = finish-IsTraced completed db
