-- ===== src/PlanExecution/Releases/Complete.antt =====
-- The claim over the whole of `_execute`.
use ai_api_security_platform.Prelude.{
  ℕ, ◌+◌, ◌⊎◌, ◌&&◌, ◌||◌, ◌=ₜ◌, text, ◌≡◌, not, Option, none, some, List, [], ◌∷◌, Text, Result,
  ok, err, arith,
}
use ai_api_security_platform.Policy.Python.{Python}
use ai_api_security_platform.Network.Destination.{Internet}
use ai_api_security_platform.Network.Gateway.{Header, World}
use ai_api_security_platform.Execution.Database.{Db}
use ai_api_security_platform.PlanExecution.Surroundings.{
  Plan, PlanAction, Provenance, Preflight, first_cancellation, Surroundings, uncaught_exception,
  concludes,
}
use ai_api_security_platform.PlanExecution.Headers.{HeaderError}
use ai_api_security_platform.PlanExecution.Preflight.{
  is_authorization_valid, is_provenance_valid, with_headers, order_of, check_provenance,
  on_provenance, is_absent, check_action, on_actions, on_plan, execute,
}
use ai_api_security_platform.PlanExecution.Releases.{
  IsReturned, IsFaulty, acquisitions, releases, escapes, ends-IsReturned, if-IsReturned,
  preflight_blocked-IsReturned,
}
use ai_api_security_platform.PlanExecution.Releases.Whole.{
  check_cancellation-IsReturned, or_canonical-IsReturned, claim-IsReturned,
}

module _ (n : ℕ) (s : Surroundings) (py : Python) (hosts : List Text) (net : Internet) (w : World)
    (pre : Preflight) where
  with_headers-IsReturned :
      (plan : Plan) (action : PlanAction) (p : Provenance) (r : Result HeaderError (List Header))
      (db : Db)
      → IsReturned s 0 (with_headers n s py hosts net w pre plan action p r db)
  with_headers-IsReturned plan action p (err e) db = preflight_blocked-IsReturned s _ db
  with_headers-IsReturned plan action p (ok headers) db =
      claim-IsReturned n s py hosts net w pre
        (order_of n s py hosts net w pre plan action p headers) db

  check_provenance-IsReturned :
      (plan : Plan) (action : PlanAction) (p : Provenance) (db : Db)
      → IsReturned s 0 (check_provenance n s py hosts net w pre plan action p db)
  unfolding check_provenance
  check_provenance-IsReturned plan action p db =
      if-IsReturned s 0 (not (is_authorization_valid p)) (preflight_blocked-IsReturned s _ db) (
        if-IsReturned s 0 (not (is_provenance_valid p)) (preflight_blocked-IsReturned s _ db) (
          if-IsReturned s 0 (p.require_human_execution_approval && not pre.approved)
            (preflight_blocked-IsReturned s _ db) (with_headers-IsReturned plan action p _ db)))

  on_provenance-IsReturned :
      (plan : Plan) (action : PlanAction) (p : Option Provenance) (db : Db)
      → IsReturned s 0 (on_provenance n s py hosts net w pre plan action p db)
  on_provenance-IsReturned plan action none db = ends-IsReturned s _ db
  on_provenance-IsReturned plan action (some p) db = check_provenance-IsReturned plan action p db

  check_action-IsReturned :
      (plan : Plan) (action : PlanAction) (db : Db)
      → IsReturned s 0 (check_action n s py hosts net w pre plan action db)
  unfolding check_action
  check_action-IsReturned plan action db =
      if-IsReturned s 0 (not (action.method =ₜ text "GET")) (ends-IsReturned s _ db) (
        if-IsReturned s 0
          (is_absent n s py hosts net w pre action.test_case_id
            || is_absent n s py hosts net w pre action.resource_id)
          (ends-IsReturned s _ db)
          (or_canonical-IsReturned n s py hosts net w pre 0 (db.runs plan.id)
            (λ r. concludes (ok r) db) _ (λ r. ends-IsReturned s _ db)
            (check_cancellation-IsReturned n s py hosts net w pre 0 first_cancellation plan.id db _
              _ (preflight_blocked-IsReturned s)
              (on_provenance-IsReturned plan action pre.provenance))))

  on_actions-IsReturned :
      (plan : Plan) (actions : List PlanAction) (db : Db)
      → IsReturned s 0 (on_actions n s py hosts net w pre plan actions db)
  on_actions-IsReturned plan [] db = ends-IsReturned s _ db
  on_actions-IsReturned plan (action ∷ []) db = check_action-IsReturned plan action db
  on_actions-IsReturned plan (action ∷ b ∷ more) db = ends-IsReturned s _ db

  on_plan-IsReturned :
      (plan : Option Plan) (db : Db) → IsReturned s 0 (on_plan n s py hosts net w pre plan db)
  on_plan-IsReturned none db = ends-IsReturned s _ db
  on_plan-IsReturned (some plan) db =
      if-IsReturned s 0 (not pre.integrity) (ends-IsReturned s _ db) (
        if-IsReturned s 0 pre.research (ends-IsReturned s _ db)
          (on_actions-IsReturned plan pre.actions db))

  -- One execution, from any tables, with the faults that the surroundings describe, and whatever others
  -- change meanwhile: when it ends, by a result or by an exception, it has called release as often as it
  -- has acquired a claim, but for the exceptions that pass the release by, which the log counts: those
  -- of the reads and the commit before the executor's `try`, and of the reading of `test_case.id` in its
  -- `finally`. If it counts any, then the execution ends by an exception that is none of its own, and
  -- the surroundings let one of those fail.
  pub releases_what_it_acquires :
      (db : Db)
      → (acquisitions (execute n s py hosts net w pre db).log
          ≡ releases (execute n s py hosts net w pre db).log
            + escapes (execute n s py hosts net w pre db).log)
        × ((escapes (execute n s py hosts net w pre db).log ≡ 0)
            ⊎ (((execute n s py hosts net w pre db).result ≡ err uncaught_exception) × IsFaulty s))
  unfolding execute
  releases_what_it_acquires db =
      let t = on_plan-IsReturned pre.plan db in (omega (arith, t.balance), t.ended)
