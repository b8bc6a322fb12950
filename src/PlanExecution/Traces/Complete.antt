-- ===== src/PlanExecution/Traces/Complete.antt =====
-- The steps of the whole of `_execute`.
use ai_api_security_platform.Prelude.{
  ℕ, ◌+◌, ◌&&◌, ◌||◌, ◌=ₜ◌, text, ◌≡◌, ◌≢◌, ◌≤◌, sym, subst, not, Option, none, some, List, [], ◌∷◌,
  Text, Result, ok, err, arith,
}
use ai_api_security_platform.Policy.Python.{Python}
use ai_api_security_platform.Network.Destination.{Internet}
use ai_api_security_platform.Network.Gateway.{Header, World}
use ai_api_security_platform.Execution.Database.{Db}
use ai_api_security_platform.Execution.Interleaving.{has_started}
use ai_api_security_platform.Execution.Interleaving.Starts.{
  starts-Trace, has_started_le, cancelled_never_starts,
}
use ai_api_security_platform.PlanExecution.Surroundings.{
  Plan, PlanAction, Provenance, Preflight, first_cancellation, Surroundings, concludes,
}
use ai_api_security_platform.PlanExecution.Headers.{HeaderError}
use ai_api_security_platform.PlanExecution.Preflight.{
  is_authorization_valid, is_provenance_valid, with_headers, order_of, check_provenance,
  on_provenance, is_absent, check_action, on_actions, on_plan, execute,
}
use ai_api_security_platform.PlanExecution.Traces.{
  weights, IsTraced, AreWorkers, fails-IsTraced, returns-IsTraced, if-IsTraced,
  preflight_blocked-IsTraced,
}
use ai_api_security_platform.PlanExecution.Traces.Whole.{
  check_cancellation-IsTraced, or_canonical-IsTraced, claim-IsTraced,
}

module _ (n : ℕ) (s : Surroundings) (py : Python) (hosts : List Text) (net : Internet) (w : World)
    (pre : Preflight) (workers : AreWorkers s) where
  module _ (plan : Plan) (action : PlanAction) where
    with_headers-IsTraced :
        (p : Provenance) (r : Result HeaderError (List Header)) (db : Db)
        → IsTraced plan.id db (with_headers n s py hosts net w pre plan action p r db)
    with_headers-IsTraced p (err e) db = preflight_blocked-IsTraced plan.id s _ db
    with_headers-IsTraced p (ok headers) db =
        claim-IsTraced n s py hosts net w pre workers
          (order_of n s py hosts net w pre plan action p headers) db

    check_provenance-IsTraced :
        (p : Provenance) (db : Db)
        → IsTraced plan.id db (check_provenance n s py hosts net w pre plan action p db)
    unfolding check_provenance
    check_provenance-IsTraced p db =
        if-IsTraced plan.id (not (is_authorization_valid p))
          (preflight_blocked-IsTraced plan.id s _ db)
          (if-IsTraced plan.id (not (is_provenance_valid p))
            (preflight_blocked-IsTraced plan.id s _ db)
            (if-IsTraced plan.id (p.require_human_execution_approval && not pre.approved)
              (preflight_blocked-IsTraced plan.id s _ db) (with_headers-IsTraced p _ db)))

    on_provenance-IsTraced :
        (p : Option Provenance) (db : Db)
        → IsTraced plan.id db (on_provenance n s py hosts net w pre plan action p db)
    on_provenance-IsTraced none db = fails-IsTraced plan.id _ db
    on_provenance-IsTraced (some p) db = check_provenance-IsTraced p db

    check_action-IsTraced :
        (db : Db) → IsTraced plan.id db (check_action n s py hosts net w pre plan action db)
    unfolding check_action
    check_action-IsTraced db =
        if-IsTraced plan.id (not (action.method =ₜ text "GET")) (fails-IsTraced plan.id _ db) (
          if-IsTraced plan.id
            (is_absent n s py hosts net w pre action.test_case_id
              || is_absent n s py hosts net w pre action.resource_id)
            (fails-IsTraced plan.id _ db)
            (or_canonical-IsTraced n s py hosts net w pre workers plan.id (db.runs plan.id)
              (λ r. concludes (ok r) db) _ db (λ r there. returns-IsTraced plan.id r db there)
              (check_cancellation-IsTraced n s py hosts net w pre workers plan.id first_cancellation
                db _ _ (preflight_blocked-IsTraced plan.id s)
                (on_provenance-IsTraced pre.provenance))))

  on_actions-IsTraced :
      (plan : Plan) (actions : List PlanAction) (db : Db)
      → IsTraced plan.id db (on_actions n s py hosts net w pre plan actions db)
  on_actions-IsTraced plan [] db = fails-IsTraced plan.id _ db
  on_actions-IsTraced plan (action ∷ []) db = check_action-IsTraced plan action db
  on_actions-IsTraced plan (action ∷ b ∷ more) db = fails-IsTraced plan.id _ db

  on_plan-IsTraced :
      (plan : Plan) (db : Db) → IsTraced plan.id db (on_plan n s py hosts net w pre (some plan) db)
  on_plan-IsTraced plan db = if-IsTraced plan.id (not pre.integrity) (fails-IsTraced plan.id _ db) (
      if-IsTraced plan.id pre.research (fails-IsTraced plan.id _ db)
        (on_actions-IsTraced plan pre.actions db))

  -- One execution, from any tables and with any faults of the database, of the audit and of the
  -- network, where the others' changes are traces: the tables are reached by a trace of committed
  -- transactions that starts the plan at least as often as the execution sends a request and others
  -- start it; and a result that it returns is the plan's row of test_runs in the tables.
  pub execute-IsTraced :
      (plan : Plan) (db : Db)
      → pre.plan ≡ some plan
      → IsTraced plan.id db (execute n s py hosts net w pre db)
  unfolding execute
  execute-IsTraced plan db found =
      subst (λ o. IsTraced plan.id db (on_plan n s py hosts net w pre o db)) (sym found)
        (on_plan-IsTraced plan db)

  -- One execution, from any tables and with any faults of the database, of the audit and of the
  -- network, where the others' changes are traces: its requests, the starts of the plan by others
  -- meanwhile, and the start that the tables record before, are at most one.
  pub sends_once :
      (plan : Plan) (db : Db)
      → pre.plan ≡ some plan
      → weights plan.id (execute n s py hosts net w pre db).log + has_started plan.id db ≤ 1
  sends_once plan db found =
      let t = execute-IsTraced plan db found in
      omega (
        arith,
        t.counted,
        starts-Trace plan.id t.trace,
        has_started_le plan.id (execute n s py hosts net w pre db).db,
      )

  -- If a plan that has not started is cancelled before its execution begins, and the others' changes
  -- are traces, then the execution sends no request and nobody else starts the plan meanwhile.
  pub cancelled_sends_nothing :
      (plan : Plan) (db : Db)
      → pre.plan ≡ some plan
      → db.cancellations plan.id ≢ none
      → has_started plan.id db ≡ 0
      → weights plan.id (execute n s py hosts net w pre db).log ≡ 0
  cancelled_sends_nothing plan db found c z =
      let t = execute-IsTraced plan db found in
      omega (arith, t.counted, cancelled_never_starts plan.id c z t.trace)
