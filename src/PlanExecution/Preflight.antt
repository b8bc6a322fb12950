-- ===== src/PlanExecution/Preflight.antt =====
-- `PlanExecutionService.execute`: the checks of `_execute` before the claim, and the claim itself.
use ai_api_security_platform.Prelude.{
  ℕ, ◌==◌, Bool, true, false, not, ◌&&◌, ◌||◌, Option, none, some, List, [], ◌∷◌, Text, text, ◌=ₜ◌,
  Result, ok, err, if◌then◌else◌,
}
use ai_api_security_platform.Policy.Python.{Python}
use ai_api_security_platform.Network.Destination.{Internet}
use ai_api_security_platform.Network.Gateway.{Header, World}
use ai_api_security_platform.Executor.{
  Blocked, execution_plan_cancellation_coordination_failed, execution_plan_cancelled,
  execution_plan_authorization_invalid, execution_plan_provenance_invalid,
  execution_plan_approval_required, execution_plan_credential_invalid,
  execution_plan_result_lookup_failed, execution_plan_claim_unavailable,
  execution_plan_claim_coordination_failed, execution_plan_in_doubt, execution_plan_progress_lost,
  execution_plan_progress_coordination_failed,
}
use ai_api_security_platform.Execution.Database.{Db}
use ai_api_security_platform.Execution.Claim.{
  ClaimError, claim_unavailable, claim_coordination, ClaimHandle, acquire,
}
use ai_api_security_platform.Execution.Progress.{
  ProgressError, progress_in_doubt, progress_lost, progress_coordination, ProgressState,
  prepare_attempt,
}
use ai_api_security_platform.Execution.Cancellation.{
  CancellationError, cancellation_coordination, CancellationState, get_cancellation,
}
use ai_api_security_platform.PlanExecution.Surroundings.{
  Plan, PlanAction, Provenance, Preflight, Call, first_cancellation, acquiring, unavailable_lookup,
  lookup, second_cancellation, preparing, Setup, set_up, not_committed, not_read, Surroundings,
  status, running, acquired, escaped, plan_not_found, provenance_unavailable, integrity_invalid,
  research_plan, not_one_action, action_not_get, provenance_incomplete, uncaught_exception,
  Conclusion, concludes, noted, meanwhile, preflight_blocked, post_network_failure,
}
use ai_api_security_platform.PlanExecution.Headers.{HeaderError, request_headers}
use ai_api_security_platform.PlanExecution.Sending.{Order, release_claim, dispatch}

abbrev pub same_optional : Option ℕ → ℕ → Bool
same_optional none id = false
same_optional (some i) id = i == id

unfoldable pub is_authorization_valid : Provenance → Bool
is_authorization_valid p =
    p.authorization.target.is_enabled
    && same_optional p.authorization.target.authorization_revision_id p.revision.id
    && same_optional p.authorization.target.authorization_profile_id
        p.revision.authorization_profile_id
    && p.revision.lifecycle_state =ₜ text "active"

-- `test_case.resource_id != resource.id` among others, negated
unfoldable pub is_provenance_valid : Provenance → Bool
is_provenance_valid p =
    p.actor.target_id == p.target_id
    && p.resource.target_id == p.target_id
    && p.endpoint.target_id == p.target_id
    && p.test_case.actor_identity_id == p.actor.id
    && p.test_case.resource_id == p.resource.id

module _ (max_retries : ℕ) (s : Surroundings) (py : Python) (hosts : List Text) (net : Internet)
    (w : World) (pre : Preflight) where
  -- A claim is given back before the error is raised.
  abbrev pub give_up : ClaimHandle → Blocked → Db → Conclusion
  give_up h code db = release_claim max_retries s h db (preflight_blocked s code)

  abbrev pub on_cancellation :
      Result CancellationError (Option CancellationState)
      → (Blocked → Conclusion)
      → Conclusion
      → Db
      → Conclusion
  on_cancellation (err cancellation_coordination) stop next db =
      stop execution_plan_cancellation_coordination_failed
  on_cancellation (err _) stop next db = concludes (err uncaught_exception) db
  on_cancellation (ok none) stop next db = next
  on_cancellation (ok (some at)) stop next db = stop execution_plan_cancelled

  -- a check of the cancellations, and what follows it
  unfoldable pub check_cancellation :
      Call → ℕ → Db → (Blocked → Db → Conclusion) → (Db → Conclusion) → Conclusion
  check_cancellation c plan db stop next = meanwhile s c db (λ d.
      let r = get_cancellation max_retries plan (s.attempts c) d in
      on_cancellation r.result (λ code. stop code r.db) (next r.db) r.db)

  -- The existing result of the plan, if it has one, and what follows it.
  abbrev pub or_canonical : Option ℕ → (ℕ → Conclusion) → Conclusion → Conclusion
  or_canonical none found next = next
  or_canonical (some r) found next = found r

  -- `_load_fresh_canonical`
  unfoldable pub load_canonical :
      Call → ℕ → Db → (Db → Conclusion) → (ℕ → Db → Conclusion) → (Db → Conclusion) → Conclusion
  load_canonical c plan db failed found next = meanwhile s c db (λ d.
      if s.lookup_fails c then failed d else or_canonical (d.runs plan) (λ r. found r d) (next d))

  -- from `test_case.status = "running"` to the commit, outside of the `try`
  abbrev pub set_out : Setup → Order → ClaimHandle → Db → Conclusion
  set_out set_up o h db = noted (status running) (dispatch max_retries s py hosts net w o h db)
  set_out not_committed o h db = noted escaped (concludes (err uncaught_exception) db)
  set_out not_read o h db =
      noted (status running) (noted escaped (concludes (err uncaught_exception) db))

  abbrev pub on_preparation :
      Order → ClaimHandle → Result ProgressError ProgressState → Db → Conclusion
  on_preparation o h (err progress_in_doubt) db =
      release_claim max_retries s h db (post_network_failure s execution_plan_in_doubt)
  on_preparation o h (err progress_lost) db = give_up h execution_plan_progress_lost db
  on_preparation o h (err progress_coordination) db =
      give_up h execution_plan_progress_coordination_failed db
  on_preparation o h (err _) db = concludes (err uncaught_exception) db
  on_preparation o h (ok state) db = set_out s.setup o h db

  unfoldable pub prepare : Order → ClaimHandle → Db → Conclusion
  unfolding dispatch release_claim
  prepare o h db = meanwhile s preparing db (λ d.
      let r = prepare_attempt max_retries h (s.attempts preparing) d in
      on_preparation o h r.result r.db)

  -- with a claim: the second look at the results and the cancellations
  unfoldable pub claimed_execution : Order → ClaimHandle → Db → Conclusion
  unfolding load_canonical check_cancellation prepare
  claimed_execution o h db =
      load_canonical lookup o.plan_id db (give_up h execution_plan_result_lookup_failed)
        (λ r d. release_claim max_retries s h d (concludes (ok r)))
        (λ d. check_cancellation second_cancellation o.plan_id d (give_up h) (prepare o h))

  abbrev pub on_claim : Order → Result ClaimError ClaimHandle → Db → Conclusion
  on_claim o (err claim_unavailable) db =
      load_canonical unavailable_lookup o.plan_id db
        (preflight_blocked s execution_plan_result_lookup_failed) (λ r d. concludes (ok r) d)
        (preflight_blocked s execution_plan_claim_unavailable)
  on_claim o (err claim_coordination) db =
      preflight_blocked s execution_plan_claim_coordination_failed db
  on_claim o (err _) db = concludes (err uncaught_exception) db
  on_claim o (ok h) db = noted acquired (claimed_execution o h db)

  unfoldable pub claim : Order → Db → Conclusion
  unfolding claimed_execution
  claim o db = meanwhile s acquiring db (λ d.
      let r =
        acquire max_retries o.plan_id s.claim_owner_id s.claim_lease (s.attempts acquiring) d in
      on_claim o r.result r.db)

  abbrev pub order_of : Plan → PlanAction → Provenance → List Header → Order
  order_of plan action p headers = record {
    plan_id = plan.id;
    revision_id = p.revision.id;
    authorization = p.authorization;
    approval_satisfied = p.require_human_execution_approval;
    method = action.method;
    url = action.url;
    headers = headers;
  }

  abbrev pub with_headers :
      Plan → PlanAction → Provenance → Result HeaderError (List Header) → Db → Conclusion
  with_headers plan action p (err e) db = preflight_blocked s execution_plan_credential_invalid db
  with_headers plan action p (ok headers) db = claim (order_of plan action p headers) db

  -- the checks on the rows
  unfoldable pub check_provenance : Plan → PlanAction → Provenance → Db → Conclusion
  unfolding is_authorization_valid is_provenance_valid request_headers claim
  check_provenance plan action p db =
      if not (is_authorization_valid p)
      then preflight_blocked s execution_plan_authorization_invalid db
      else if not (is_provenance_valid p)
      then preflight_blocked s execution_plan_provenance_invalid db
      else if p.require_human_execution_approval && not pre.approved
      then preflight_blocked s execution_plan_approval_required db
      else with_headers plan action p
          (request_headers py.lower p.actor plan.credential_binding_id pre.token) db

  abbrev pub on_provenance : Plan → PlanAction → Option Provenance → Db → Conclusion
  on_provenance plan action none db = concludes (err provenance_unavailable) db
  on_provenance plan action (some p) db = check_provenance plan action p db

  abbrev pub is_absent : Option ℕ → Bool
  is_absent none = true
  is_absent (some _) = false

  unfoldable pub check_action : Plan → PlanAction → Db → Conclusion
  unfolding check_provenance check_cancellation
  check_action plan action db =
      if not (action.method =ₜ text "GET")
      then concludes (err action_not_get) db
      else if is_absent action.test_case_id || is_absent action.resource_id
      then concludes (err provenance_incomplete) db
      else or_canonical (db.runs plan.id) (λ r. concludes (ok r) db)
          (check_cancellation first_cancellation plan.id db (preflight_blocked s)
            (on_provenance plan action pre.provenance))

  abbrev pub on_actions : Plan → List PlanAction → Db → Conclusion
  on_actions plan (action ∷ []) db = check_action plan action db
  on_actions plan _ db = concludes (err not_one_action) db

  abbrev pub on_plan : Option Plan → Db → Conclusion
  on_plan none db = concludes (err plan_not_found) db
  on_plan (some plan) db =
      if not pre.integrity
      then concludes (err integrity_invalid) db
      else if pre.research
      then concludes (err research_plan) db
      else on_actions plan pre.actions db

  unfoldable pub execute : Db → Conclusion
  unfolding check_action
  execute db = on_plan pre.plan db
