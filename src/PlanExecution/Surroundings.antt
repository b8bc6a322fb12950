-- ===== src/PlanExecution/Surroundings.antt =====
-- What one execution of a plan meets, and what it leaves: the log of what it did and of what others
-- did meanwhile, the tables, and the result.
use ai_api_security_platform.Prelude.{
  ℕ, Bool, Option, List, [], ◌∷◌, ◌++◌, Text, Result, err, if◌then◌else◌,
}
use ai_api_security_platform.Policy.Engine.{AuthorizationRevision, PolicyDecision}
use ai_api_security_platform.Bola.Ownership.{TestIdentity, Resource}
use ai_api_security_platform.Bola.Generator.{Endpoint}
use ai_api_security_platform.Executor.{
  Blocked, safety_audit_persistence_failed, Authorization, Callback, Waited, Effect,
}
use ai_api_security_platform.Execution.Database.{Db, Attempt}
use ai_api_security_platform.Execution.Claim.{Seconds}
use ai_api_security_platform.Execution.Interleaving.{Event}

-- The fields that the service reads of the rows of execution_plans, plan_actions and test_cases.
pub record Plan : Type 0 where
  pub id : ℕ
  pub credential_binding_id : Option ℕ

pub record PlanAction : Type 0 where
  pub method : Text
  pub url : Text
  pub test_case_id : Option ℕ
  pub resource_id : Option ℕ

pub record TestCase : Type 0 where
  pub actor_identity_id : ℕ
  pub resource_id : ℕ

-- The rows behind a plan, where all of them are found. `authorization` holds the target, the
-- revision and the active scopes.
pub record Provenance : Type 0 where
  pub target_id : ℕ
  pub authorization : Authorization
  pub revision : AuthorizationRevision
  pub require_human_execution_approval : Bool
  pub actor : TestIdentity
  pub test_case : TestCase
  pub resource : Resource
  pub endpoint : Endpoint

-- What the preflight reads. `integrity` is that of `validate_persisted_plan_integrity`, `research`
-- says that the plan belongs to research (`reject_plan`), and `token` is what the credential store
-- resolves the binding to; none: an error.
pub record Preflight : Type 0 where
  pub plan : Option Plan
  pub integrity : Bool
  pub research : Bool
  pub actions : List PlanAction
  pub provenance : Option Provenance
  pub approved : Bool
  pub token : Option Text

-- The places where the service goes to the database again.
pub data Call : Type 0 where
  first_cancellation acquiring unavailable_lookup lookup second_cancellation preparing : Call
  renewing marking finishing releasing : Call

-- What other workers and operators commit before a call.
pub record Others : Type 0 where
  pub events : List Event
  pub db : Db

-- How the commit of the result ends: it is stored and acknowledged, stored with the acknowledgement
-- lost, or not stored.
pub data Persisted : Type 0 where
  stored unacknowledged not_stored : Persisted

-- PlanExecutionNotFoundError, PlanExecutionError, ExecutionBlockedError, and any other exception.
pub data PlanExecutionError : Type 0 where
  plan_not_found provenance_unavailable integrity_invalid research_plan not_one_action :
      PlanExecutionError
  action_not_get provenance_incomplete uncaught_exception : PlanExecutionError
  execution_blocked : Blocked → PlanExecutionError

-- How the reads of the scopes and the commit between the preparation and the call of the executor end:
-- they succeed, or one of them raises before or after the commit has happened.
pub data Setup : Type 0 where
  set_up not_committed not_read : Setup

-- The surroundings of an execution; `unreadable` says after which results the reading of
-- `test_case.id` in the `finally` raises, as it may in a session that has failed; the reads of `refresh_authorization` follow `fresh`.
pub record Surroundings : Type 0 where
  pub others : Call → Db → Others
  pub attempts : Call → List Attempt
  pub lookup_fails : Call → Bool
  pub audit_stored : Blocked → Bool
  pub claim_owner_id : Text
  pub claim_lease : Seconds
  pub setup : Setup
  pub unreadable : Result PlanExecutionError ℕ → Bool
  pub fresh_integrity : Bool
  pub fresh_authorization : Option Authorization
  pub fresh_approved : Bool
  pub wait : Waited
  pub observer : PolicyDecision → Callback (Unit {0})
  pub first_now : ℕ
  pub second_now : ℕ
  pub assertion : Attempt
  pub persisted : Persisted
  pub new_run : ℕ

pub data AuditOutcome : Type 0 where
  audit_blocked audit_failed : AuditOutcome

-- The status of the test case.
pub data Status : Type 0 where
  running blocked_status completed failed_status : Status

-- `escaped` is an exception that passes a claim which is held by its release.
pub data Action : Type 0 where
  interfered : List Event → Action
  acquired released escaped : Action
  audited : AuditOutcome → Blocked → Action
  status : Status → Action
  called : Effect → Action
  recorded : ℕ → Action

-- The result is the identifier of a row of test_runs.
pub record Conclusion : Type 0 where
  pub log : List Action
  pub db : Db
  pub result : Result PlanExecutionError ℕ

abbrev pub concludes : Result PlanExecutionError ℕ → Db → Conclusion
concludes r db = record { log = []; db = db; result = r }

abbrev pub noted : Action → Conclusion → Conclusion
noted a d = record d { log = a ∷ d.log }

abbrev pub noted_all : List Action → Conclusion → Conclusion
noted_all actions d = record d { log = actions ++ d.log }

module _ (s : Surroundings) where
  -- The others' transactions before a call, and the call.
  abbrev pub meanwhile : Call → Db → (Db → Conclusion) → Conclusion
  meanwhile c db next = noted (interfered (s.others c db).events) (next (s.others c db).db)

  -- `_raise_preflight_blocked`
  unfoldable pub preflight_blocked : Blocked → Db → Conclusion
  preflight_blocked code db =
      if s.audit_stored code
      then noted (audited audit_blocked code) (concludes (err (execution_blocked code)) db)
      else concludes (err (execution_blocked safety_audit_persistence_failed)) db

  abbrev pub audit_failure : Blocked → Conclusion → Conclusion
  audit_failure code d = if s.audit_stored code then noted (audited audit_failed code) d else d

  -- `_raise_post_network_failure`
  unfoldable pub post_network_failure : Blocked → Db → Conclusion
  post_network_failure code db = audit_failure code (concludes (err (execution_blocked code)) db)
