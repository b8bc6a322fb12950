-- ===== src/Plans/Creation/Reads.antt =====
-- What `create_execution_plan` reads, and its errors.
use ai_api_security_platform.Prelude.{
  ℕ, ◌==◌, ◌*◌, Bool, true, false, ◌||◌, Option, none, some, List, Text, text, ◌=ₜ◌, Result, ok,
  err,
}
use ai_api_security_platform.Policy.Origin.{Violation}
use ai_api_security_platform.Policy.Paths.{PathError}
use ai_api_security_platform.Policy.Engine.{Target, AuthorizationRevision}
use ai_api_security_platform.Bola.Ownership.{TestIdentity, Resource}
use ai_api_security_platform.Bola.Generator.{Endpoint}
use ai_api_security_platform.Bola.Json.{Value, array, object, Fields, no_fields, field}
use ai_api_security_platform.Plans.Digest.{PlanActionInput, ActionRow, ExecutionPlan}

-- The messages of ExecutionPlanValidationError, and the errors of the URL functions.
pub data PlanError : Type 0 where
  wrong_action_count target_or_revision_missing revision_not_bound revision_not_active : PlanError
  foreign_actor anonymous_binding missing_binding binding_not_active : PlanError
  not_get bad_url outside_origin url_fragment secret_in_url : PlanError
  foreign_resource foreign_test_case : PlanError
  not_a_container secret_in_context not_serializable context_too_large : PlanError
  research_closed uncaught_assertion : PlanError
  origin_rejected : Violation → PlanError
  path_rejected : PathError → PlanError

pub record CredentialBinding : Type 0 where
  pub test_identity_id : ℕ
  pub is_active : Bool
  pub auth_type : Text

pub record TestCaseRow : Type 0 where
  pub test_type : Text
  pub endpoint_id : ℕ
  pub resource_id : ℕ
  pub actor_identity_id : ℕ

-- The tables, by the identifier. `is_research_member` says which test cases stand in
-- research_intent_plan_members.
pub record Rows : Type 0 where
  pub targets : ℕ → Option Target
  pub revisions : ℕ → Option AuthorizationRevision
  pub identities : ℕ → Option TestIdentity
  pub bindings : ℕ → Option CredentialBinding
  pub resources : ℕ → Option Resource
  pub endpoints : ℕ → Option Endpoint
  pub test_cases : ℕ → Option TestCaseRow
  pub is_research_member : ℕ → Bool

pub record PlanInput : Type 0 where
  pub target_id : ℕ
  pub authorization_revision_id : ℕ
  pub actor_identity_id : ℕ
  pub credential_binding_id : Option ℕ
  pub actions : List PlanActionInput
  pub policy_context : Option Value

-- A plan with its actions.
pub record Snapshot : Type 0 where
  pub plan : Option ExecutionPlan
  pub actions : List ActionRow

abbrev pub lift {ℓ} : {E F : Type 0} {A : Type ℓ} → (E → F) → Result E A → Result F A
lift f (err e) = err (f e)
lift f (ok a) = ok a

-- A row that is read, or an error.
abbrev pub found {ℓ} : {E : Type 0} {A : Type ℓ} → Option A → E → Result E A
found none e = err e
found (some a) e = ok a

abbrev pub is_id : Option ℕ → ℕ → Bool
is_id none id = false
is_id (some i) id = i == id

-- No row of another target; a row that is missing is refused.
abbrev pub on_target : ℕ → {A : Type 0} → (A → ℕ) → Option A → Bool
on_target target f none = false
on_target target f (some a) = f a == target

abbrev pub has_key : Text → Fields → Bool
has_key k no_fields = false
has_key k (field key v fields) = key =ₜ k || has_key k fields

-- `'research_intent' in policy_context` for a mapping
abbrev pub is_research_context : Option Value → Bool
is_research_context (some (object fields)) = has_key (text "research_intent") fields
is_research_context _ = false

abbrev pub is_container : Value → Bool
is_container (array _) = true
is_container (object _) = true
is_container _ = false

abbrev pub max_plan_actions : ℕ
max_plan_actions = 100

abbrev pub max_policy_context_bytes : ℕ
max_policy_context_bytes = 16 * 1024

abbrev pub max_action_url_length : ℕ
max_action_url_length = 2048
