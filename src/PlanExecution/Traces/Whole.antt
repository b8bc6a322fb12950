-- ===== src/PlanExecution/Traces/Whole.antt =====
-- The steps of an execution from the claim on.
use ai_api_security_platform.Prelude.{
  ℕ, ◌≡◌, refl, Option, none, some, List, Text, Result, ok, err, if◌then◌else◌,
}
use ai_api_security_platform.Policy.Python.{Python}
use ai_api_security_platform.Network.Destination.{Internet}
use ai_api_security_platform.Network.Gateway.{World}
use ai_api_security_platform.Executor.{Blocked}
use ai_api_security_platform.Execution.Database.{Db}
use ai_api_security_platform.Execution.Claim.{
  ClaimError, claim_lost, claim_coordination, claim_unavailable, invalid_owner, invalid_lease,
  ClaimHandle, acquire,
}
use ai_api_security_platform.Execution.Claim.Lease.{acquire-plan}
use ai_api_security_platform.Execution.Progress.{
  ProgressError, progress_in_doubt, progress_lost, progress_cancelled, progress_coordination,
  ProgressState, prepare_attempt,
}
use ai_api_security_platform.Execution.Cancellation.{
  CancellationError, cancellation_coordination, CancellationState, get_cancellation,
}
use ai_api_security_platform.Execution.Interleaving.Services.{
  acquire-Reaches, prepare_attempt-Reaches, get_cancellation-Reaches,
}
use ai_api_security_platform.Execution.Interleaving.Results.{runs-Trace}
use ai_api_security_platform.PlanExecution.Surroundings.{
  Preflight, Call, acquiring, unavailable_lookup, lookup, second_cancellation, preparing, Setup,
  set_up, not_committed, not_read, Surroundings, acquired, escaped, running, status, Conclusion,
}
use ai_api_security_platform.PlanExecution.Sending.{Order}
use ai_api_security_platform.PlanExecution.Preflight.{
  give_up, on_cancellation, check_cancellation, or_canonical, load_canonical, set_out,
  on_preparation, prepare, claimed_execution, on_claim, claim,
}
use ai_api_security_platform.PlanExecution.Traces.{
  IsTraced, AreWorkers, fails-IsTraced, returns-IsTraced, if-IsTraced, noted-IsTraced,
  Reaches-IsTraced, meanwhile-IsTraced, preflight_blocked-IsTraced, post_network_failure-IsTraced,
  release_claim-IsTraced,
}
use ai_api_security_platform.PlanExecution.Traces.Dispatch.{dispatch-IsTraced}

module _ (n : ℕ) (s : Surroundings) (py : Python) (hosts : List Text) (net : Internet) (w : World)
    (pre : Preflight) (workers : AreWorkers s) where
  module _ (plan : ℕ) where
    give_up-IsTraced :
        (h : ClaimHandle) (code : Blocked) (db : Db)
        → IsTraced plan db (give_up n s py hosts net w pre h code db)
    give_up-IsTraced h code db =
        release_claim-IsTraced plan s n workers h db _
          (λ d _. preflight_blocked-IsTraced plan s code d)

    on_cancellation-IsTraced :
        (r : Result CancellationError (Option CancellationState)) (stop : Blocked → Conclusion)
        (next : Conclusion) (db : Db)
        → ((code : Blocked) → IsTraced plan db (stop code))
        → IsTraced plan db next
        → IsTraced plan db (on_cancellation n s py hosts net w pre r stop next db)
    on_cancellation-IsTraced (err cancellation_coordination) stop next db t u = t _
    on_cancellation-IsTraced (err _) stop next db t u = fails-IsTraced plan _ db
    on_cancellation-IsTraced (ok none) stop next db t u = u
    on_cancellation-IsTraced (ok (some at)) stop next db t u = t _

    pub check_cancellation-IsTraced :
        (c : Call) (db : Db) (stop : Blocked → Db → Conclusion) (next : Db → Conclusion)
        → ((code : Blocked) (d : Db) → IsTraced plan d (stop code d))
        → ((d : Db) → IsTraced plan d (next d))
        → IsTraced plan db (check_cancellation n s py hosts net w pre c plan db stop next)
    unfolding check_cancellation
    check_cancellation-IsTraced c db stop next t u =
        let r : (d : Db) → _ = λ d. get_cancellation n plan (s.attempts c) d in
        meanwhile-IsTraced plan s workers c db
          (λ d.
            on_cancellation n s py hosts net w pre (r d).result (λ code. stop code (r d).db)
              (next (r d).db) (r d).db)
          (λ d _.
            Reaches-IsTraced plan (get_cancellation-Reaches n plan (s.attempts c) d)
              (on_cancellation-IsTraced (r d).result _ _ _ (λ code. t code _) (u _)))

    pub or_canonical-IsTraced :
        (o : Option ℕ) (found : ℕ → Conclusion) (next : Conclusion) (db : Db)
        → ((r : ℕ) → o ≡ some r → IsTraced plan db (found r))
        → IsTraced plan db next
        → IsTraced plan db (or_canonical n s py hosts net w pre o found next)
    or_canonical-IsTraced none found next db t u = u
    or_canonical-IsTraced (some r) found next db t u = t r refl

    load_canonical-IsTraced :
        (c : Call) (db : Db) (failed : Db → Conclusion) (found : ℕ → Db → Conclusion)
        (next : Db → Conclusion)
        → ((d : Db) → IsTraced plan d (failed d))
        → ((r : ℕ) (d : Db) → d.runs plan ≡ some r → IsTraced plan d (found r d))
        → ((d : Db) → IsTraced plan d (next d))
        → IsTraced plan db (load_canonical n s py hosts net w pre c plan db failed found next)
    unfolding load_canonical
    load_canonical-IsTraced c db failed found next t u v =
        meanwhile-IsTraced plan s workers c db
          (λ d.
            if s.lookup_fails c
            then failed d
            else or_canonical n s py hosts net w pre (d.runs plan) (λ r. found r d) (next d))
          (λ d _.
            if-IsTraced plan (s.lookup_fails c) (t d)
              (or_canonical-IsTraced (d.runs plan) (λ r. found r d) (next d) d (λ r. u r d) (v d)))

  module _ (o : Order) where
    set_out-IsTraced :
        (u : Setup) (h : ClaimHandle) (db : Db)
        → h.execution_plan_id ≡ o.plan_id
        → IsTraced o.plan_id db (set_out n s py hosts net w pre u o h db)
    set_out-IsTraced set_up h db same =
        noted-IsTraced o.plan_id (status running) refl
          (dispatch-IsTraced n s py hosts net w workers o h db same)
    set_out-IsTraced not_committed h db same =
        noted-IsTraced o.plan_id escaped refl (fails-IsTraced o.plan_id _ db)
    set_out-IsTraced not_read h db same =
        noted-IsTraced o.plan_id (status running) refl
          (noted-IsTraced o.plan_id escaped refl (fails-IsTraced o.plan_id _ db))

    on_preparation-IsTraced :
        (h : ClaimHandle) (r : Result ProgressError ProgressState) (db : Db)
        → h.execution_plan_id ≡ o.plan_id
        → IsTraced o.plan_id db (on_preparation n s py hosts net w pre o h r db)
    on_preparation-IsTraced h (err progress_in_doubt) db same =
        release_claim-IsTraced o.plan_id s n workers h db _
          (λ d _. post_network_failure-IsTraced o.plan_id s _ d)
    on_preparation-IsTraced h (err progress_lost) db same = give_up-IsTraced o.plan_id h _ db
    on_preparation-IsTraced h (err progress_coordination) db same =
        give_up-IsTraced o.plan_id h _ db
    on_preparation-IsTraced h (err progress_cancelled) db same = fails-IsTraced o.plan_id _ db
    on_preparation-IsTraced h (ok state) db same = set_out-IsTraced s.setup h db same

    prepare-IsTraced :
        (h : ClaimHandle) (db : Db)
        → h.execution_plan_id ≡ o.plan_id
        → IsTraced o.plan_id db (prepare n s py hosts net w pre o h db)
    unfolding prepare
    prepare-IsTraced h db same =
        let r : (d : Db) → _ = λ d. prepare_attempt n h (s.attempts preparing) d in
        meanwhile-IsTraced o.plan_id s workers preparing db
          (λ d. on_preparation n s py hosts net w pre o h (r d).result (r d).db)
          (λ d _.
            Reaches-IsTraced o.plan_id (prepare_attempt-Reaches n h (s.attempts preparing) d)
              (on_preparation-IsTraced h (r d).result (r d).db same))

    claimed_execution-IsTraced :
        (h : ClaimHandle) (db : Db)
        → h.execution_plan_id ≡ o.plan_id
        → IsTraced o.plan_id db (claimed_execution n s py hosts net w pre o h db)
    unfolding claimed_execution
    claimed_execution-IsTraced h db same =
        load_canonical-IsTraced o.plan_id lookup db _ _ _ (give_up-IsTraced o.plan_id h _)
          (λ r d there.
            release_claim-IsTraced o.plan_id s n workers h d _ (λ later (es, t).
              returns-IsTraced o.plan_id r later (runs-Trace o.plan_id r t there)))
          (λ d.
            check_cancellation-IsTraced o.plan_id second_cancellation d _ _
              (give_up-IsTraced o.plan_id h) (λ d'. prepare-IsTraced h d' same))

    on_claim-IsTraced :
        (r : Result ClaimError ClaimHandle) (db : Db)
        → ((h : ClaimHandle) → r ≡ ok h → h.execution_plan_id ≡ o.plan_id)
        → IsTraced o.plan_id db (on_claim n s py hosts net w pre o r db)
    on_claim-IsTraced (err claim_unavailable) db granted =
        load_canonical-IsTraced o.plan_id unavailable_lookup db _ _ _
          (preflight_blocked-IsTraced o.plan_id s _)
          (λ r d there. returns-IsTraced o.plan_id r d there)
          (preflight_blocked-IsTraced o.plan_id s _)
    on_claim-IsTraced (err claim_coordination) db granted =
        preflight_blocked-IsTraced o.plan_id s _ db
    on_claim-IsTraced (err claim_lost) db granted = fails-IsTraced o.plan_id _ db
    on_claim-IsTraced (err invalid_owner) db granted = fails-IsTraced o.plan_id _ db
    on_claim-IsTraced (err invalid_lease) db granted = fails-IsTraced o.plan_id _ db
    on_claim-IsTraced (ok h) db granted =
        noted-IsTraced o.plan_id acquired refl (claimed_execution-IsTraced h db (granted h refl))

    pub claim-IsTraced : (db : Db) → IsTraced o.plan_id db (claim n s py hosts net w pre o db)
    unfolding claim
    claim-IsTraced db =
        let r : (d : Db) → _ =
          λ d. acquire n o.plan_id s.claim_owner_id s.claim_lease (s.attempts acquiring) d in
        meanwhile-IsTraced o.plan_id s workers acquiring db
          (λ d. on_claim n s py hosts net w pre o (r d).result (r d).db)
          (λ d _.
            Reaches-IsTraced o.plan_id
              (acquire-Reaches n o.plan_id s.claim_owner_id s.claim_lease (s.attempts acquiring) d)
              (on_claim-IsTraced (r d).result (r d).db (λ h e.
                acquire-plan n o.plan_id s.claim_owner_id s.claim_lease (s.attempts acquiring) d h
                  e)))
