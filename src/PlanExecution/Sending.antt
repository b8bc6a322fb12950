-- ===== src/PlanExecution/Sending.antt =====
-- The end of `_execute`, from the call of the executor on, with `refresh_authorization`,
-- `before_network`, `_finish`, `_assert_result_writer` and `_release_claim`.
use ai_api_security_platform.Prelude.{
  ℕ, ◌==◌, Bool, true, false, not, ◌&&◌, Option, none, some, List, map, any, Text, Result, ok, err,
  if◌then◌else◌,
}
use ai_api_security_platform.Policy.Python.{Python}
use ai_api_security_platform.Policy.Engine.{AuthorizationRevision}
use ai_api_security_platform.Network.Destination.{Internet}
use ai_api_security_platform.Network.Gateway.{Header, World, GatewayResult}
use ai_api_security_platform.Executor.{
  authorization_revision_changed, execution_plan_claim_lost,
  execution_plan_claim_coordination_failed, execution_plan_integrity_changed,
  execution_plan_approval_changed, execution_plan_progress_lost, execution_plan_cancelled,
  execution_plan_progress_coordination_failed, execution_plan_result_fencing_lost,
  execution_plan_result_fencing_failed, execution_plan_result_persistence_failed,
  execution_plan_claim_cleanup_failed, ExecutionError, blocked, network_failed, uncaught,
  Authorization, Callback, returns, raises_blocked, raises, Caller, Effect, refreshed, marked, Run,
  execute,
}
use ai_api_security_platform.Execution.Database.{Db, put}
use ai_api_security_platform.Execution.Claim.{
  ClaimError, claim_lost, claim_coordination, ClaimHandle, renew, release, assert_current_in,
}
use ai_api_security_platform.Execution.Progress.{
  ProgressError, progress_lost, progress_cancelled, progress_coordination, ProgressState,
  mark_network_started,
}
use ai_api_security_platform.PlanExecution.Surroundings.{
  renewing, marking, finishing, releasing, Others, Persisted, stored, unacknowledged, not_stored,
  Surroundings, audit_blocked, Status, blocked_status, completed, failed_status, interfered,
  released, escaped, audited, status, called, recorded, uncaught_exception, execution_blocked,
  Conclusion, concludes, noted, noted_all, meanwhile, audit_failure, post_network_failure,
}

abbrev pub is_revision : Option AuthorizationRevision → ℕ → Bool
is_revision none id = false
is_revision (some r) id = r.id == id

-- What an execution sends, and under which plan, revision and approval.
pub record Order : Type 0 where
  pub plan_id : ℕ
  pub revision_id : ℕ
  pub authorization : Authorization
  pub approval_satisfied : Bool
  pub method : Text
  pub url : Text
  pub headers : List Header

-- The reads of `refresh_authorization` in its fresh session.
abbrev pub reread : Surroundings → Order → Option Authorization → Callback Authorization
reread s o none = raises
reread s o (some fresh) =
    if not (is_revision fresh.revision o.revision_id)
    then raises_blocked authorization_revision_changed
    else if o.approval_satisfied && not s.fresh_approved
    then raises_blocked execution_plan_approval_changed
    else returns fresh

-- `refresh_authorization`, from the reply to its renewal on
unfoldable pub refresh_authorization :
    Surroundings → Order → Result ClaimError ClaimHandle → Callback Authorization
refresh_authorization s o (err claim_lost) = raises_blocked execution_plan_claim_lost
refresh_authorization s o (err claim_coordination) =
    raises_blocked execution_plan_claim_coordination_failed
refresh_authorization s o (err _) = raises
refresh_authorization s o (ok h) =
    if s.fresh_integrity
    then reread s o s.fresh_authorization
    else raises_blocked execution_plan_integrity_changed

-- `before_network`, from the reply to its mark on
unfoldable pub before_network : Result ProgressError ProgressState → Callback (Unit {0})
before_network (err progress_lost) = raises_blocked execution_plan_progress_lost
before_network (err progress_cancelled) = raises_blocked execution_plan_cancelled
before_network (err progress_coordination) =
    raises_blocked execution_plan_progress_coordination_failed
before_network (err _) = raises
before_network (ok state) = returns tt

-- The handle after a renewal: the variable `claim_handle` is assigned only if the renewal returns.
abbrev pub renewed_handle : ClaimHandle → Result ClaimError ClaimHandle → ClaimHandle
renewed_handle h (err _) = h
renewed_handle h (ok h') = h'

abbrev pub is_refreshed : Effect → Bool
is_refreshed refreshed = true
is_refreshed _ = false

abbrev pub is_marked : Effect → Bool
is_marked marked = true
is_marked _ = false

module _ (max_retries : ℕ) (s : Surroundings) where
  abbrev pub audit_cleanup : Result ClaimError ℕ → Conclusion → Conclusion
  audit_cleanup (err claim_coordination) d = audit_failure s execution_plan_claim_cleanup_failed d
  audit_cleanup _ d = d

  -- `_release_claim`, and what follows it
  unfoldable pub release_claim : ClaimHandle → Db → (Db → Conclusion) → Conclusion
  release_claim h db next = meanwhile s releasing db (λ d.
      let r = release max_retries h (s.attempts releasing) d in
      noted released (audit_cleanup r.result (next r.db)))

  -- `finally: self._release_claim(...)`, whose arguments are read first
  unfoldable pub finally_release : ClaimHandle → Conclusion → Conclusion
  finally_release h d = noted_all d.log (
      if s.unreadable d.result
      then noted escaped (concludes (err uncaught_exception) d.db)
      else release_claim h d.db (concludes d.result))

  abbrev pub write_run : ℕ → Db → Db
  write_run plan d = record d { runs = put d.runs plan s.new_run }

  -- the flush and the commit of the new row
  abbrev pub persist : Persisted → ℕ → Status → Db → Conclusion
  persist stored plan st d =
      noted (status st) (noted (recorded s.new_run) (concludes (ok s.new_run) (write_run plan d)))
  persist unacknowledged plan st d = noted (status st) (
      noted (recorded s.new_run)
        (post_network_failure s execution_plan_result_persistence_failed (write_run plan d)))
  persist not_stored plan st d = post_network_failure s execution_plan_result_persistence_failed d

  -- The insertion of a second row for the plan fails, and its row is read instead.
  abbrev pub insert_run : Option ℕ → ℕ → Status → Db → Conclusion
  insert_run none plan st d = persist s.persisted plan st d
  insert_run (some r) plan st d =
      if s.lookup_fails finishing
      then post_network_failure s execution_plan_result_persistence_failed d
      else concludes (ok r) d

  abbrev pub asserted : Result ClaimError ℕ → ℕ → Status → Db → Conclusion
  asserted (err claim_lost) plan st d = post_network_failure s execution_plan_result_fencing_lost d
  asserted (err claim_coordination) plan st d =
      post_network_failure s execution_plan_result_fencing_failed d
  asserted (err _) plan st d = concludes (err uncaught_exception) d
  asserted (ok _) plan st d = insert_run (d.runs plan) plan st d

  -- `_finish`
  unfoldable pub finish : ClaimHandle → ℕ → Status → Db → Conclusion
  finish h plan st db =
      meanwhile s finishing db (λ d. asserted (assert_current_in h s.assertion d) plan st d)

  -- the handlers of the call of the executor
  unfoldable pub conclude : Result ExecutionError GatewayResult → ClaimHandle → ℕ → Db → Conclusion
  unfolding finish
  conclude (err (blocked code)) h plan db =
      if s.audit_stored code
      then noted (status blocked_status)
          (noted (audited audit_blocked code) (concludes (err (execution_blocked code)) db))
      else concludes (err uncaught_exception) db
  conclude (err (network_failed e)) h plan db = finish h plan failed_status db
  conclude (err uncaught) h plan db = concludes (err uncaught_exception) db
  conclude (ok response) h plan db = finish h plan completed db

  -- How far the callbacks have changed the tables.
  unfoldable pub reached : List Effect → Others → Others → Db → (Db → Conclusion) → Conclusion
  reached log before_renewal before_mark after_mark next =
      if any is_marked log
      then noted (interfered before_renewal.events)
          (noted (interfered before_mark.events) (next after_mark))
      else if any is_refreshed log
      then noted (interfered before_renewal.events)
          (noted (interfered before_mark.events) (next before_mark.db))
      else noted (interfered before_renewal.events) (next before_renewal.db)

  module _ (py : Python) (hosts : List Text) (net : Internet) (w : World) where
    abbrev pub caller :
        Order → Result ClaimError ClaimHandle → Result ProgressError ProgressState → Caller
    caller o renewal mark = record {
      wait = s.wait;
      refresh = some (refresh_authorization s o renewal);
      observer = some s.observer;
      before_network = some (before_network mark);
      has_boundary = false;
      first_now = s.first_now;
      second_now = s.second_now;
    }

    abbrev pub run_of :
        Order → Result ClaimError ClaimHandle → Result ProgressError ProgressState → Run
    run_of o renewal mark =
        execute py hosts net w (caller o renewal mark) o.url o.headers o.authorization o.method

    -- The executor's call, with the replies that its callbacks get where it calls them.
    unfoldable pub dispatch : Order → ClaimHandle → Db → Conclusion
    unfolding execute reached conclude finally_release
    dispatch o h db =
        let first = s.others renewing db in
        let renewal = renew max_retries h s.claim_lease (s.attempts renewing) first.db in
        let h' = renewed_handle h renewal.result in
        let second = s.others marking renewal.db in
        let mark = mark_network_started max_retries h' (s.attempts marking) second.db in
        let run = run_of o renewal.result mark.result in
        let holder = if any is_refreshed run.log then h' else h in
        reached run.log first second mark.db (λ d.
          noted_all (map called run.log)
            (finally_release holder (conclude run.result holder o.plan_id d)))
