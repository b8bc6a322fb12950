-- ===== src/PlanExecution/Traces.antt =====
-- One execution is a trace of the coordination tables, in which every request that it sends has a
-- start of its own.
pub mod Finish
pub mod Dispatch
pub mod Whole
pub mod Complete
use ai_api_security_platform.Prelude.{
  ℕ, ◌+◌, ◌≡◌, ◌≢◌, ◌≤◌, refl, sym, ap, subst, ◌∙◌, inl, inr, ◌⊎◌, Bool, true, false, not, Option,
  none, some, List, [], ◌∷◌, ◌++◌, map, any, In, Text, Result, ok, err, arith, if◌then◌else◌,
  Bool-cases, Option-cases,
}
use ai_api_security_platform.Policy.Python.{Python}
use ai_api_security_platform.Network.Destination.{Internet}
use ai_api_security_platform.Network.Gateway.{World, GatewayRequest, GatewayResult}
use ai_api_security_platform.Executor.{
  Blocked, ExecutionError, blocked, network_failed, uncaught, Effect, observed, waited, refreshed,
  marked, sent, returns,
}
use ai_api_security_platform.Executor.Clearance.{IsCleared, sent-IsCleared}
use ai_api_security_platform.Execution.Database.{
  Db, put, Attempt, aborted, unacknowledged as lost_attempt, acknowledged,
}
use ai_api_security_platform.Execution.Claim.{
  ClaimError, claim_lost, claim_coordination, claim_unavailable, ClaimHandle, is_current,
  assert_current_in, renew, release,
}
use ai_api_security_platform.Execution.Progress.{ProgressError, ProgressState, mark_network_started}
use ai_api_security_platform.Execution.Interleaving.{
  Event, Step, records, Trace, stop, step, is_start, starts, has_started,
}
use ai_api_security_platform.Execution.Interleaving.Services.{
  append-Trace, starts-append, Reaches, release-Reaches, renew-Reaches,
  mark_network_started-Reaches, mark_network_started-starts,
}
use ai_api_security_platform.Execution.Interleaving.Results.{runs-Trace}
use ai_api_security_platform.PlanExecution.Surroundings.{
  Call, Others, Persisted, stored, unacknowledged, not_stored, Surroundings, AuditOutcome, Status,
  Action, interfered, acquired, released, audited, status, called, recorded, PlanExecutionError,
  renewing, marking, finishing, releasing, escaped, Conclusion, concludes, noted, noted_all,
  meanwhile, preflight_blocked, audit_failure, post_network_failure,
}
use ai_api_security_platform.PlanExecution.Sending.{
  Order, before_network, renewed_handle, is_refreshed, is_marked, audit_cleanup, release_claim,
  finally_release, write_run, persist, insert_run, asserted, finish, conclude, reached, caller,
  run_of, dispatch,
}

-- 1 for a request that is handed to the gateway.
abbrev pub is_sent : Effect → ℕ
is_sent (sent q) = 1
is_sent _ = 0

abbrev pub sends : List Effect → ℕ
sends [] = 0
sends (e ∷ es) = is_sent e + sends es

module _ (plan : ℕ) where
  -- The requests of the execution itself, and the starts of the plan by others.
  abbrev pub weight : Action → ℕ
  weight (called e) = is_sent e
  weight (interfered es) = starts plan es
  weight _ = 0

  abbrev pub weights : List Action → ℕ
  weights [] = 0
  weights (a ∷ log) = weight a + weights log

  weights-append : (log later : List Action) → weights (log ++ later) ≡ weights log + weights later
  weights-append [] later = omega arith
  weights-append (a ∷ log) later = omega (arith, weights-append log later)

  weights-called : (log : List Effect) → weights (map called log) ≡ sends log
  weights-called [] = refl
  weights-called (e ∷ log) = omega (arith, weights-called log)

  -- The tables are reached by a trace that starts the plan at least as often as requests are sent by
  -- the execution and the plan is started by others, and a result that is returned is the canonical
  -- one.
  pub record IsTraced (db : Db) (d : Conclusion) : Type 0 where
    pub events : List Event
    pub trace : Trace db events d.db
    pub counted : weights d.log ≤ starts plan events
    pub canonical : (r : ℕ) → d.result ≡ ok r → d.db.runs plan ≡ some r

  pub concludes-IsTraced :
      (r : Result PlanExecutionError ℕ) (db : Db)
      → ((x : ℕ) → r ≡ ok x → db.runs plan ≡ some x)
      → IsTraced db (concludes r db)
  concludes-IsTraced r db found = record {
    events = [];
    trace = stop;
    counted = omega arith;
    canonical = found;
  }

  pub fails-IsTraced : (e : PlanExecutionError) (db : Db) → IsTraced db (concludes (err e) db)
  fails-IsTraced e db = concludes-IsTraced (err e) db (λ x q. absurd (ground (arith, q)))

  pub returns-IsTraced :
      (r : ℕ) (db : Db) → db.runs plan ≡ some r → IsTraced db (concludes (ok r) db)
  returns-IsTraced r db found = concludes-IsTraced (ok r) db (λ x q. ground (arith, q, found))

  pub noted-IsTraced :
      (a : Action) {db : Db} {d : Conclusion}
      → weight a ≡ 0
      → IsTraced db d
      → IsTraced db (noted a d)
  noted-IsTraced a z t = record {
    events = t.events;
    trace = t.trace;
    counted = omega (arith, t.counted);
    canonical = t.canonical;
  }

  -- Actions that a trace accounts for, and what follows it.
  pub noted_all-IsTraced :
      (actions : List Action) {es : List Event} {a b : Db} {d : Conclusion}
      → Trace a es b
      → weights actions ≤ starts plan es
      → IsTraced b d
      → IsTraced a (noted_all actions d)
  noted_all-IsTraced actions {es = es} {d = d} t le u = record {
    events = es ++ u.events;
    trace = append-Trace t u.trace;
    counted =
        omega (arith, weights-append actions d.log, starts-append plan es u.events, u.counted);
    canonical = u.canonical;
  }

  pub if-IsTraced :
      (b : Bool) {db : Db} {d d' : Conclusion}
      → IsTraced db d
      → IsTraced db d'
      → IsTraced db (if b then d else d')
  if-IsTraced true t u = t
  if-IsTraced false t u = u

  pub interfered-IsTraced :
      {es : List Event} {a b : Db} {d : Conclusion}
      → Trace a es b
      → IsTraced b d
      → IsTraced a (noted (interfered es) d)
  interfered-IsTraced {es = es} t u = noted_all-IsTraced (interfered es ∷ []) t (omega arith) u

  pub Reaches-IsTraced : {a b : Db} {d : Conclusion} → Reaches a b → IsTraced b d → IsTraced a d
  Reaches-IsTraced (es, t) u = noted_all-IsTraced [] t (omega arith) u

-- What the others do is always a trace.
pub record AreWorkers (s : Surroundings) : Type 0 where
  pub at : (c : Call) (db : Db) → Trace db (s.others c db).events (s.others c db).db

module _ (plan : ℕ) (s : Surroundings) where
  pub meanwhile-IsTraced :
      (workers : AreWorkers s) (c : Call) (db : Db) (next : Db → Conclusion)
      → ((d : Db) → Reaches db d → IsTraced plan d (next d))
      → IsTraced plan db (meanwhile s c db next)
  meanwhile-IsTraced workers c db next t =
      interfered-IsTraced plan (workers.at c db) (t _ (_, workers.at c db))

  pub preflight_blocked-IsTraced :
      (code : Blocked) (db : Db) → IsTraced plan db (preflight_blocked s code db)
  unfolding preflight_blocked
  preflight_blocked-IsTraced code db =
      if-IsTraced plan (s.audit_stored code) (noted-IsTraced plan _ refl (fails-IsTraced plan _ db))
        (fails-IsTraced plan _ db)

  audit_failure-IsTraced :
      (code : Blocked) {db : Db} {d : Conclusion}
      → IsTraced plan db d
      → IsTraced plan db (audit_failure s code d)
  audit_failure-IsTraced code t =
      if-IsTraced plan (s.audit_stored code) (noted-IsTraced plan _ refl t) t

  pub post_network_failure-IsTraced :
      (code : Blocked) (db : Db) → IsTraced plan db (post_network_failure s code db)
  unfolding post_network_failure
  post_network_failure-IsTraced code db = audit_failure-IsTraced code (fails-IsTraced plan _ db)

  module _ (n : ℕ) (workers : AreWorkers s) where
    audit_cleanup-IsTraced :
        (r : Result ClaimError ℕ) {db : Db} {d : Conclusion}
        → IsTraced plan db d
        → IsTraced plan db (audit_cleanup n s r d)
    audit_cleanup-IsTraced (err claim_coordination) t = audit_failure-IsTraced _ t
    audit_cleanup-IsTraced (err _) t = t
    audit_cleanup-IsTraced (ok _) t = t

    pub release_claim-IsTraced :
        (h : ClaimHandle) (db : Db) (next : Db → Conclusion)
        → ((d : Db) → Reaches db d → IsTraced plan d (next d))
        → IsTraced plan db (release_claim n s h db next)
    unfolding release_claim
    release_claim-IsTraced h db next t =
        meanwhile-IsTraced workers releasing db _ (λ d (es, before).
          let (fs, given) = release-Reaches n h (s.attempts releasing) d in
          noted-IsTraced plan released refl (
            Reaches-IsTraced plan (fs, given)
              (audit_cleanup-IsTraced (release n h (s.attempts releasing) d).result
                (t _ (_, append-Trace before given)))))

    finally_release-IsTraced :
        (h : ClaimHandle) {db : Db} (d : Conclusion)
        → IsTraced plan db d
        → IsTraced plan db (finally_release n s h d)
    unfolding finally_release
    finally_release-IsTraced h d t = noted_all-IsTraced plan d.log t.trace t.counted (
        if-IsTraced plan (s.unreadable d.result)
          (noted-IsTraced plan escaped refl (fails-IsTraced plan _ d.db))
          (release_claim-IsTraced h d.db _ (λ later (es, u).
            concludes-IsTraced plan d.result later (λ x q. runs-Trace plan x u (t.canonical x q)))))
