-- ===== src/PlanExecution/Releases/Whole.antt =====
-- The claim over an execution from its acquisition on.
use ai_api_security_platform.Prelude.{
  ℕ, ◌≡◌, ◌≢◌, inl, refl, Option, none, some, List, [], ◌∷◌, Text, Result, ok, err, arith,
  if◌then◌else◌,
}
use ai_api_security_platform.Policy.Python.{Python}
use ai_api_security_platform.Network.Destination.{Internet}
use ai_api_security_platform.Network.Gateway.{World}
use ai_api_security_platform.Executor.{Blocked}
use ai_api_security_platform.Execution.Database.{Db}
use ai_api_security_platform.Execution.Claim.{
  ClaimError, claim_lost, claim_coordination, claim_unavailable, invalid_owner, invalid_lease,
  ClaimHandle, acquire,
}
use ai_api_security_platform.Execution.Progress.{
  ProgressError, progress_in_doubt, progress_lost, progress_cancelled, progress_coordination,
  ProgressState, prepare_attempt,
}
use ai_api_security_platform.Execution.Cancellation.{
  CancellationError, cancellation_not_found, already_completed, cancellation_in_doubt,
  cancellation_coordination, CancellationState, get_cancellation,
}
use ai_api_security_platform.Execution.Errors.{
  get_cancellation_error, prepare_attempt_not_cancelled,
}
use ai_api_security_platform.PlanExecution.Surroundings.{
  Preflight, Call, acquiring, unavailable_lookup, lookup, second_cancellation, preparing, Setup,
  set_up, not_committed, not_read, Surroundings, acquired, running, status, Conclusion,
}
use ai_api_security_platform.PlanExecution.Sending.{Order}
use ai_api_security_platform.PlanExecution.Preflight.{
  give_up, on_cancellation, check_cancellation, or_canonical, load_canonical, set_out,
  on_preparation, prepare, claimed_execution, on_claim, claim,
}
use ai_api_security_platform.PlanExecution.Releases.{
  IsReturned, ends-IsReturned, escaped-IsReturned, if-IsReturned, noted-IsReturned,
  noted_all-IsReturned, meanwhile-IsReturned, preflight_blocked-IsReturned,
  post_network_failure-IsReturned, release_claim-IsReturned,
}
use ai_api_security_platform.PlanExecution.Releases.Calls.{dispatch-IsReturned}

module _ (n : ℕ) (s : Surroundings) (py : Python) (hosts : List Text) (net : Internet) (w : World)
    (pre : Preflight) where
  give_up-IsReturned :
      (h : ClaimHandle) (code : Blocked) (db : Db)
      → IsReturned s 1 (give_up n s py hosts net w pre h code db)
  give_up-IsReturned h code db =
      release_claim-IsReturned s n h db _ (preflight_blocked-IsReturned s code)

  on_cancellation-IsReturned :
      (k : ℕ) (r : Result CancellationError (Option CancellationState))
      (stop : Blocked → Conclusion) (next : Conclusion) (db : Db)
      → ((e : CancellationError) → r ≡ err e → e ≡ cancellation_coordination)
      → ((code : Blocked) → IsReturned s k (stop code))
      → IsReturned s k next
      → IsReturned s k (on_cancellation n s py hosts net w pre r stop next db)
  on_cancellation-IsReturned k (err cancellation_coordination) stop next db only t u = t _
  on_cancellation-IsReturned k (err cancellation_not_found) stop next db only t u =
      absurd (ground (arith, only cancellation_not_found refl))
  on_cancellation-IsReturned k (err already_completed) stop next db only t u =
      absurd (ground (arith, only already_completed refl))
  on_cancellation-IsReturned k (err cancellation_in_doubt) stop next db only t u =
      absurd (ground (arith, only cancellation_in_doubt refl))
  on_cancellation-IsReturned k (ok none) stop next db only t u = u
  on_cancellation-IsReturned k (ok (some at)) stop next db only t u = t _

  pub check_cancellation-IsReturned :
      (k : ℕ) (c : Call) (plan : ℕ) (db : Db) (stop : Blocked → Db → Conclusion)
      (next : Db → Conclusion)
      → ((code : Blocked) (d : Db) → IsReturned s k (stop code d))
      → ((d : Db) → IsReturned s k (next d))
      → IsReturned s k (check_cancellation n s py hosts net w pre c plan db stop next)
  unfolding check_cancellation
  check_cancellation-IsReturned k c plan db stop next t u =
      let r : (d : Db) → _ = λ d. get_cancellation n plan (s.attempts c) d in
      meanwhile-IsReturned s k c db
        (λ d.
          on_cancellation n s py hosts net w pre (r d).result (λ code. stop code (r d).db)
            (next (r d).db) (r d).db)
        (λ d.
          on_cancellation-IsReturned k (r d).result _ _ _
            (get_cancellation_error n plan (s.attempts c) d) (λ code. t code _) (u _))

  pub or_canonical-IsReturned :
      (k : ℕ) (o : Option ℕ) (found : ℕ → Conclusion) (next : Conclusion)
      → ((r : ℕ) → IsReturned s k (found r))
      → IsReturned s k next
      → IsReturned s k (or_canonical n s py hosts net w pre o found next)
  or_canonical-IsReturned k none found next t u = u
  or_canonical-IsReturned k (some r) found next t u = t r

  load_canonical-IsReturned :
      (k : ℕ) (c : Call) (plan : ℕ) (db : Db) (failed : Db → Conclusion)
      (found : ℕ → Db → Conclusion) (next : Db → Conclusion)
      → ((d : Db) → IsReturned s k (failed d))
      → ((r : ℕ) (d : Db) → IsReturned s k (found r d))
      → ((d : Db) → IsReturned s k (next d))
      → IsReturned s k (load_canonical n s py hosts net w pre c plan db failed found next)
  unfolding load_canonical
  load_canonical-IsReturned k c plan db failed found next t u v =
      meanwhile-IsReturned s k c db
        (λ d.
          if s.lookup_fails c
          then failed d
          else or_canonical n s py hosts net w pre (d.runs plan) (λ r. found r d) (next d))
        (λ d.
          if-IsReturned s k (s.lookup_fails c) (t d)
            (or_canonical-IsReturned k (d.runs plan) (λ r. found r d) (next d) (λ r. u r d) (v d)))

  module _ (o : Order) where
    set_out-IsReturned :
        (u : Setup) (h : ClaimHandle) (db : Db)
        → s.setup ≡ u
        → IsReturned s 1 (set_out n s py hosts net w pre u o h db)
    set_out-IsReturned set_up h db e =
        noted-IsReturned s 1 (status running) refl refl
          (dispatch-IsReturned n s py hosts net w o h db)
    set_out-IsReturned not_committed h db e = escaped-IsReturned s db (inl (λ q. cc (e, q)))
    set_out-IsReturned not_read h db e =
        noted-IsReturned s 1 (status running) refl refl
          (escaped-IsReturned s db (inl (λ q. cc (e, q))))

    on_preparation-IsReturned :
        (h : ClaimHandle) (r : Result ProgressError ProgressState) (db : Db)
        → r ≢ err progress_cancelled
        → IsReturned s 1 (on_preparation n s py hosts net w pre o h r db)
    on_preparation-IsReturned h (err progress_in_doubt) db possible =
        release_claim-IsReturned s n h db _ (post_network_failure-IsReturned s _)
    on_preparation-IsReturned h (err progress_lost) db possible = give_up-IsReturned h _ db
    on_preparation-IsReturned h (err progress_coordination) db possible = give_up-IsReturned h _ db
    on_preparation-IsReturned h (err progress_cancelled) db possible = absurd (possible refl)
    on_preparation-IsReturned h (ok state) db possible = set_out-IsReturned s.setup h db refl

    prepare-IsReturned :
        (h : ClaimHandle) (db : Db) → IsReturned s 1 (prepare n s py hosts net w pre o h db)
    unfolding prepare
    prepare-IsReturned h db =
        let r : (d : Db) → _ = λ d. prepare_attempt n h (s.attempts preparing) d in
        meanwhile-IsReturned s 1 preparing db
          (λ d. on_preparation n s py hosts net w pre o h (r d).result (r d).db)
          (λ d.
            on_preparation-IsReturned h (r d).result (r d).db
              (prepare_attempt_not_cancelled n h (s.attempts preparing) d))

    claimed_execution-IsReturned :
        (h : ClaimHandle) (db : Db)
        → IsReturned s 1 (claimed_execution n s py hosts net w pre o h db)
    unfolding claimed_execution
    claimed_execution-IsReturned h db =
        load_canonical-IsReturned 1 lookup o.plan_id db _ _ _ (give_up-IsReturned h _)
          (λ r d. release_claim-IsReturned s n h d _ (ends-IsReturned s (ok r)))
          (λ d.
            check_cancellation-IsReturned 1 second_cancellation o.plan_id d _ _
              (give_up-IsReturned h) (prepare-IsReturned h))

    on_claim-IsReturned :
        (r : Result ClaimError ClaimHandle) (db : Db)
        → IsReturned s 0 (on_claim n s py hosts net w pre o r db)
    on_claim-IsReturned (err claim_unavailable) db =
        load_canonical-IsReturned 0 unavailable_lookup o.plan_id db _ _ _
          (preflight_blocked-IsReturned s _) (λ r d. ends-IsReturned s (ok r) d)
          (preflight_blocked-IsReturned s _)
    on_claim-IsReturned (err claim_coordination) db = preflight_blocked-IsReturned s _ db
    on_claim-IsReturned (err claim_lost) db = ends-IsReturned s _ db
    on_claim-IsReturned (err invalid_owner) db = ends-IsReturned s _ db
    on_claim-IsReturned (err invalid_lease) db = ends-IsReturned s _ db
    on_claim-IsReturned (ok h) db =
        noted_all-IsReturned s 0 1 (acquired ∷ []) refl refl (claimed_execution-IsReturned h db)

    pub claim-IsReturned : (db : Db) → IsReturned s 0 (claim n s py hosts net w pre o db)
    unfolding claim
    claim-IsReturned db =
        let r : (d : Db) → _ =
          λ d. acquire n o.plan_id s.claim_owner_id s.claim_lease (s.attempts acquiring) d in
        meanwhile-IsReturned s 0 acquiring db
          (λ d. on_claim n s py hosts net w pre o (r d).result (r d).db)
          (λ d. on_claim-IsReturned (r d).result (r d).db)
