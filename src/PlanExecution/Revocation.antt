-- ===== src/PlanExecution/Revocation.antt =====
-- The approval of a plan over its execution: the decisions of Plans decide whether it sends a request.
use ai_api_security_platform.Prelude.{
  ℕ, ◌+◌, ◌≡◌, refl, ap, Bool, true, false, not, ◌&&◌, &&_iff, ◌||◌, Option, none, some, List, [],
  ◌∷◌, Text, text, ◌=ₜ◌, Result, ok, err, arith, if◌then◌else◌,
}
use ai_api_security_platform.Policy.Python.{Python}
use ai_api_security_platform.Network.Destination.{Internet}
use ai_api_security_platform.Network.Gateway.{World}
use ai_api_security_platform.Executor.{Blocked}
use ai_api_security_platform.Execution.Database.{Db}
use ai_api_security_platform.Execution.Cancellation.{
  CancellationError, cancellation_not_found, already_completed, cancellation_in_doubt,
  cancellation_coordination, CancellationState, get_cancellation,
}
use ai_api_security_platform.PlanExecution.Surroundings.{
  Plan, PlanAction, Provenance, Preflight, Call, first_cancellation, Surroundings, Action, called,
  Conclusion, concludes, preflight_blocked,
}
use ai_api_security_platform.PlanExecution.Preflight.{
  is_authorization_valid, is_provenance_valid, on_cancellation, check_cancellation, or_canonical,
  check_provenance, on_provenance, is_absent, check_action, on_actions, on_plan, execute,
}
use ai_api_security_platform.PlanExecution.Traces.{is_sent}
use ai_api_security_platform.Plans.Digest.{Library}
use ai_api_security_platform.Plans.Creation.{Rows, Snapshot}
use ai_api_security_platform.Plans.Approval.{
  IntegrityError, ApprovalRecord, is_plan_approved, record_plan_decision,
}
use ai_api_security_platform.Plans.Approval.Decisions.{decision_decides}

abbrev request_of : Action → ℕ
request_of (called e) = is_sent e
request_of _ = 0

-- The requests of a log that the execution hands to the gateway.
abbrev pub requests : List Action → ℕ
requests [] = 0
requests (a ∷ log) = request_of a + requests log

abbrev IsUnsent : Conclusion → Type 0
IsUnsent d = requests d.log ≡ 0

if-IsUnsent :
    (b : Bool) (d d' : Conclusion) → IsUnsent d → IsUnsent d' → IsUnsent (if b then d else d')
if-IsUnsent true d d' t u = t
if-IsUnsent false d d' t u = u

taken-IsUnsent :
    (b : Bool) (d d' : Conclusion) → b ≡ true → IsUnsent d → IsUnsent (if b then d else d')
taken-IsUnsent true d d' e t = t
taken-IsUnsent false d d' e t = absurd (ground (arith, e))

module _ (n : ℕ) (s : Surroundings) (py : Python) (hosts : List Text) (net : Internet) (w : World)
    (pre : Preflight) where
  preflight_blocked-IsUnsent : (code : Blocked) (db : Db) → IsUnsent (preflight_blocked s code db)
  unfolding preflight_blocked
  preflight_blocked-IsUnsent code db = if-IsUnsent (s.audit_stored code) _ _ refl refl

  on_cancellation-IsUnsent :
      (r : Result CancellationError (Option CancellationState)) (next : Conclusion) (db d : Db)
      → IsUnsent next
      → IsUnsent
          (on_cancellation n s py hosts net w pre r (λ code. preflight_blocked s code d) next db)
  on_cancellation-IsUnsent (err cancellation_coordination) next db d t =
      preflight_blocked-IsUnsent _ d
  on_cancellation-IsUnsent (err cancellation_not_found) next db d t = refl
  on_cancellation-IsUnsent (err already_completed) next db d t = refl
  on_cancellation-IsUnsent (err cancellation_in_doubt) next db d t = refl
  on_cancellation-IsUnsent (ok none) next db d t = t
  on_cancellation-IsUnsent (ok (some at)) next db d t = preflight_blocked-IsUnsent _ d

  check_cancellation-IsUnsent :
      (c : Call) (plan : ℕ) (db : Db) (next : Db → Conclusion)
      → ((d : Db) → IsUnsent (next d))
      → IsUnsent (check_cancellation n s py hosts net w pre c plan db (preflight_blocked s) next)
  unfolding check_cancellation
  check_cancellation-IsUnsent c plan db next t =
      let r = get_cancellation n plan (s.attempts c) (s.others c db).db in
      omega (arith, on_cancellation-IsUnsent r.result (next r.db) r.db r.db (t r.db))

  or_canonical-IsUnsent :
      (o : Option ℕ) (db : Db) (next : Conclusion)
      → IsUnsent next
      → IsUnsent (or_canonical n s py hosts net w pre o (λ r. concludes (ok r) db) next)
  or_canonical-IsUnsent none db next t = t
  or_canonical-IsUnsent (some r) db next t = refl

  module _ (unapproved : pre.approved ≡ false)
      (required : (p : Provenance)
        → pre.provenance ≡ some p
        → p.require_human_execution_approval ≡ true) where
    check_provenance-IsUnsent :
        (plan : Plan) (action : PlanAction) (p : Provenance) (db : Db)
        → p.require_human_execution_approval ≡ true
        → IsUnsent (check_provenance n s py hosts net w pre plan action p db)
    unfolding check_provenance
    check_provenance-IsUnsent plan action p db e =
        if-IsUnsent (not (is_authorization_valid p)) _ _ (preflight_blocked-IsUnsent _ db) (
          if-IsUnsent (not (is_provenance_valid p)) _ _ (preflight_blocked-IsUnsent _ db) (
            taken-IsUnsent (p.require_human_execution_approval && not pre.approved) _ _
              ((&&_iff _ _).1 (e, ap not unapproved)) (preflight_blocked-IsUnsent _ db)))

    on_provenance-IsUnsent :
        (plan : Plan) (action : PlanAction) (o : Option Provenance) (db : Db)
        → pre.provenance ≡ o
        → IsUnsent (on_provenance n s py hosts net w pre plan action o db)
    on_provenance-IsUnsent plan action none db e = refl
    on_provenance-IsUnsent plan action (some p) db e =
        check_provenance-IsUnsent plan action p db (required p e)

    check_action-IsUnsent :
        (plan : Plan) (action : PlanAction) (db : Db)
        → IsUnsent (check_action n s py hosts net w pre plan action db)
    unfolding check_action
    check_action-IsUnsent plan action db =
        if-IsUnsent (not (action.method =ₜ text "GET")) _ _ refl (
          if-IsUnsent
            (is_absent n s py hosts net w pre action.test_case_id
              || is_absent n s py hosts net w pre action.resource_id)
            _ _ refl
            (or_canonical-IsUnsent (db.runs plan.id) db _ (
              check_cancellation-IsUnsent first_cancellation plan.id db
                (on_provenance n s py hosts net w pre plan action pre.provenance)
                (λ d. on_provenance-IsUnsent plan action pre.provenance d refl))))

    on_actions-IsUnsent :
        (plan : Plan) (actions : List PlanAction) (db : Db)
        → IsUnsent (on_actions n s py hosts net w pre plan actions db)
    on_actions-IsUnsent plan [] db = refl
    on_actions-IsUnsent plan (action ∷ []) db = check_action-IsUnsent plan action db
    on_actions-IsUnsent plan (action ∷ b ∷ more) db = refl

    on_plan-IsUnsent : (o : Option Plan) (db : Db) → IsUnsent (on_plan n s py hosts net w pre o db)
    on_plan-IsUnsent none db = refl
    on_plan-IsUnsent (some plan) db =
        if-IsUnsent (not pre.integrity) _ _ refl
          (if-IsUnsent pre.research _ _ refl (on_actions-IsUnsent plan pre.actions db))

    unapproved_sends_nothing : (db : Db) → requests (execute n s py hosts net w pre db).log ≡ 0
    unfolding execute
    unapproved_sends_nothing db = on_plan-IsUnsent pre.plan db

-- `approval_satisfied`: an exception ends the execution, which then sends nothing either.
abbrev pub approval_satisfied : Result IntegrityError Bool → Bool
approval_satisfied (err e) = false
approval_satisfied (ok b) = b

-- The preflight, with the approval that the decisions give.
abbrev pub approved_by : Result IntegrityError Bool → Preflight → Preflight
approved_by r pre = record pre { approved = approval_satisfied r }

-- Once "revoked" is recorded for a plan, an execution of it that needs an approval, and that reads the
-- decisions as they are then, hands no request to the gateway: from any tables, with any faults, and
-- whatever others do.
pub revoked_sends_nothing :
    (lib : Library) (rows : Rows) (is_member_plan : ℕ → Bool) (snapshot : Snapshot)
    (records later : List ApprovalRecord) (n : ℕ) (s : Surroundings) (py : Python)
    (hosts : List Text) (net : Internet) (w : World) (pre : Preflight) (db : Db)
    → record_plan_decision lib py rows is_member_plan snapshot (text "revoked") records ≡ ok later
    → ((p : Provenance) → pre.provenance ≡ some p → p.require_human_execution_approval ≡ true)
    → requests
        (execute n s py hosts net w
          (approved_by (is_plan_approved lib py rows is_member_plan snapshot later) pre)
          db).log
      ≡ 0
revoked_sends_nothing lib rows is_member_plan snapshot records later n s py hosts net w pre db h
      required =
    unapproved_sends_nothing n s py hosts net w
      (approved_by (is_plan_approved lib py rows is_member_plan snapshot later) pre)
      (ap approval_satisfied
        (decision_decides lib py rows is_member_plan snapshot (text "revoked") records later h))
      required db
