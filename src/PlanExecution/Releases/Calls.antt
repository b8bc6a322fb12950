-- ===== src/PlanExecution/Releases/Calls.antt =====
-- The claim over the end of an execution: the handlers, the callbacks and `_finish`.
use ai_api_security_platform.Prelude.{
  ℕ, refl, Option, none, some, List, map, any, Text, Result, ok, err, if◌then◌else◌,
}
use ai_api_security_platform.Policy.Python.{Python}
use ai_api_security_platform.Network.Destination.{Internet}
use ai_api_security_platform.Network.Gateway.{World, GatewayResult}
use ai_api_security_platform.Executor.{ExecutionError, blocked, network_failed, uncaught, Effect}
use ai_api_security_platform.Execution.Database.{Db}
use ai_api_security_platform.Execution.Claim.{
  ClaimError, claim_coordination, claim_lost, ClaimHandle, renew, assert_current_in,
}
use ai_api_security_platform.Execution.Progress.{mark_network_started}
use ai_api_security_platform.PlanExecution.Surroundings.{
  Others, Persisted, stored, unacknowledged, not_stored, Surroundings, Status, completed,
  failed_status, finishing, renewing, marking, called, Conclusion, noted_all,
}
use ai_api_security_platform.PlanExecution.Sending.{
  Order, renewed_handle, run_of, is_refreshed, is_marked, finally_release, persist, insert_run,
  asserted, finish, conclude, reached, dispatch,
}
use ai_api_security_platform.PlanExecution.Releases.{
  IsReturned, ends-IsReturned, if-IsReturned, noted-IsReturned, called-IsReturned,
  meanwhile-IsReturned, post_network_failure-IsReturned,
}
use ai_api_security_platform.PlanExecution.Releases.Finally.{finally_release-IsReturned}

module _ (n : ℕ) (s : Surroundings) where
  persist-IsReturned :
      (p : Persisted) (plan : ℕ) (st : Status) (db : Db) → IsReturned s 0 (persist n s p plan st db)
  persist-IsReturned stored plan st db =
      noted-IsReturned s 0 _ refl refl (noted-IsReturned s 0 _ refl refl (ends-IsReturned s _ _))
  persist-IsReturned unacknowledged plan st db =
      noted-IsReturned s 0 _ refl refl
        (noted-IsReturned s 0 _ refl refl (post_network_failure-IsReturned s _ _))
  persist-IsReturned not_stored plan st db = post_network_failure-IsReturned s _ db

  insert_run-IsReturned :
      (o : Option ℕ) (plan : ℕ) (st : Status) (db : Db)
      → IsReturned s 0 (insert_run n s o plan st db)
  insert_run-IsReturned none plan st db = persist-IsReturned s.persisted plan st db
  insert_run-IsReturned (some r) plan st db =
      if-IsReturned s 0 (s.lookup_fails finishing) (post_network_failure-IsReturned s _ db)
        (ends-IsReturned s _ db)

  asserted-IsReturned :
      (r : Result ClaimError ℕ) (plan : ℕ) (st : Status) (db : Db)
      → IsReturned s 0 (asserted n s r plan st db)
  asserted-IsReturned (err claim_lost) plan st db = post_network_failure-IsReturned s _ db
  asserted-IsReturned (err claim_coordination) plan st db = post_network_failure-IsReturned s _ db
  asserted-IsReturned (err _) plan st db = ends-IsReturned s _ db
  asserted-IsReturned (ok _) plan st db = insert_run-IsReturned (db.runs plan) plan st db

  finish-IsReturned :
      (h : ClaimHandle) (plan : ℕ) (st : Status) (db : Db)
      → IsReturned s 0 (finish n s h plan st db)
  unfolding finish
  finish-IsReturned h plan st db =
      meanwhile-IsReturned s 0 finishing db
        (λ d. asserted n s (assert_current_in h s.assertion d) plan st d)
        (λ d. asserted-IsReturned _ plan st d)

  conclude-IsReturned :
      (r : Result ExecutionError GatewayResult) (h : ClaimHandle) (plan : ℕ) (db : Db)
      → IsReturned s 0 (conclude n s r h plan db)
  unfolding conclude
  conclude-IsReturned (err (blocked code)) h plan db =
      if-IsReturned s 0 (s.audit_stored code)
        (noted-IsReturned s 0 _ refl refl
          (noted-IsReturned s 0 _ refl refl (ends-IsReturned s _ db)))
        (ends-IsReturned s _ db)
  conclude-IsReturned (err (network_failed e)) h plan db = finish-IsReturned h plan failed_status db
  conclude-IsReturned (err uncaught) h plan db = ends-IsReturned s _ db
  conclude-IsReturned (ok response) h plan db = finish-IsReturned h plan completed db

  reached-IsReturned :
      (k : ℕ) (log : List Effect) (first second : Others) (after : Db) (next : Db → Conclusion)
      → ((d : Db) → IsReturned s k (next d))
      → IsReturned s k (reached n s log first second after next)
  unfolding reached
  reached-IsReturned k log first second after next t =
      if-IsReturned s k (any is_marked log)
        (noted-IsReturned s k _ refl refl (noted-IsReturned s k _ refl refl (t after)))
        (if-IsReturned s k (any is_refreshed log)
          (noted-IsReturned s k _ refl refl (noted-IsReturned s k _ refl refl (t second.db)))
          (noted-IsReturned s k _ refl refl (t first.db)))

  pub dispatch-IsReturned :
      (py : Python) (hosts : List Text) (net : Internet) (w : World) (o : Order) (h : ClaimHandle)
      (db : Db)
      → IsReturned s 1 (dispatch n s py hosts net w o h db)
  unfolding dispatch
  dispatch-IsReturned py hosts net w o h db =
      let first = s.others renewing db in
      let renewal = renew n h s.claim_lease (s.attempts renewing) first.db in
      let h' = renewed_handle h renewal.result in
      let second = s.others marking renewal.db in
      let mark = mark_network_started n h' (s.attempts marking) second.db in
      let run = run_of n s py hosts net w o renewal.result mark.result in
      let holder = if any is_refreshed run.log then h' else h in
      reached-IsReturned 1 run.log first second mark.db
        (λ d.
          noted_all (map called run.log)
            (finally_release n s holder (conclude n s run.result holder o.plan_id d)))
        (λ d. called-IsReturned s 1 run.log (
          finally_release-IsReturned s n holder
            (conclude-IsReturned run.result holder o.plan_id d)))
