-- ===== src/Plans/Creation.antt =====
-- `create_execution_plan` and `_create_execution_plan` of execution_plan.py, over the rows that they
-- read, and `canonicalize_policy_context`.
mod Reads
pub use Reads.*
use ai_api_security_platform.Prelude.{
  ℕ, suc, ◌==◌, ◌*◌, leb, Bool, true, false, not, ◌&&◌, ◌||◌, Option, none, some, List, [], ◌∷◌,
  any, length, Text, text, ◌=ₜ◌, starts_with, Result, ok, err, ◌>>=◌, ◌>>◌, guard,
}
use ai_api_security_platform.Policy.Python.{Python}
use ai_api_security_platform.Policy.Origin.{Violation, Origin, same_origin, parse_origin}
use ai_api_security_platform.Policy.Paths.{PathError, normalize_request_path}
use ai_api_security_platform.Policy.Engine.{Target, AuthorizationRevision}
use ai_api_security_platform.Bola.Ownership.{TestIdentity, Resource}
use ai_api_security_platform.Bola.Generator.{Endpoint}
use ai_api_security_platform.Bola.Json.{Value, array, object, Fields, no_fields, field}
use ai_api_security_platform.Plans.Secrets.{has_secret, is_secret_parameter}
use ai_api_security_platform.Plans.Digest.{
  Library, PlanActionInput, ActionRow, ExecutionPlan, digest_version_v1, Content,
  compute_plan_digest_v1,
}

abbrev pub or_empty : Option Value → Value
or_empty none = object no_fields
or_empty (some v) = v

module _ (lib : Library) where
  unfoldable pub canonicalize_policy_context : Option Value → Result PlanError Value
  canonicalize_policy_context context = do
    guard (is_container (or_empty context)) not_a_container
    guard (not (has_secret lib.lower (or_empty context))) secret_in_context
    canonical ← found (lib.dumps (or_empty context)) not_serializable
    guard (leb (length (lib.utf8 canonical)) max_policy_context_bytes) context_too_large
    loaded ← found (lib.loads canonical) uncaught_assertion
    guard (is_container loaded) uncaught_assertion
    ok loaded

module _ (lib : Library) (py : Python) (rows : Rows) where
  -- `new_case` of research_intent_gate.py
  abbrev pub is_research_case : Option ℕ → Bool
  is_research_case none = false
  is_research_case (some id) = elim (rows.test_cases id) [
    | none ↦ false
    | some case ↦ starts_with case.test_type (text "ra_") || rows.is_research_member id
  ]

  abbrev pub has_own_resource : ℕ → Option ℕ → Bool
  has_own_resource target none = true
  has_own_resource target (some id) = on_target target (λ r. r.target_id) (rows.resources id)

  abbrev pub is_resource : Option ℕ → ℕ → Bool
  is_resource none id = true
  is_resource (some i) id = i == id

  abbrev pub is_own_case : ℕ → Option ℕ → Option TestCaseRow → Bool
  is_own_case target resource none = false
  is_own_case target resource (some case) =
      on_target target (λ e. e.target_id) (rows.endpoints case.endpoint_id)
      && on_target target (λ r. r.target_id) (rows.resources case.resource_id)
      && on_target target (λ i. i.target_id) (rows.identities case.actor_identity_id)
      && is_resource resource case.resource_id

  abbrev pub has_own_case : ℕ → Option ℕ → Option ℕ → Bool
  has_own_case target resource none = true
  has_own_case target resource (some id) = is_own_case target resource (rows.test_cases id)

  -- one round of the loop over the actions
  unfoldable pub check_action : ℕ → Origin → PlanActionInput → Result PlanError (Unit {0})
  check_action target origin a = do
    guard (a.method =ₜ text "GET") not_get
    guard (not (a.url =ₜ []) && leb (length a.url) max_action_url_length) bad_url
    own ← lift origin_rejected (parse_origin py a.url)
    guard (same_origin own origin) outside_origin
    path ← lift path_rejected (normalize_request_path py a.url)
    guard (lib.fragment a.url =ₜ []) url_fragment
    guard (not (any (is_secret_parameter lib.lower) (lib.query a.url))) secret_in_url
    guard (has_own_resource target a.resource_id) foreign_resource
    guard (has_own_case target a.resource_id a.test_case_id) foreign_test_case

  abbrev pub check_actions : ℕ → Origin → List PlanActionInput → Result PlanError (Unit {0})
  check_actions target origin [] = ok tt
  check_actions target origin (a ∷ actions) = do
    check_action target origin a
    check_actions target origin actions

  abbrev pub is_anonymous : TestIdentity → Bool
  is_anonymous actor = actor.auth_type =ₜ text "none" || actor.auth_type =ₜ text "anonymous"

  abbrev pub is_own_binding : ℕ → TestIdentity → Option CredentialBinding → Bool
  is_own_binding actor_id actor none = false
  is_own_binding actor_id actor (some b) =
      b.test_identity_id == actor_id && b.is_active && b.auth_type =ₜ actor.auth_type

  -- the rules for the credential
  unfoldable pub check_credential : ℕ → TestIdentity → Option ℕ → Result PlanError (Unit {0})
  check_credential actor_id actor none = guard (is_anonymous actor) missing_binding
  check_credential actor_id actor (some id) = do
    guard (not (is_anonymous actor)) anonymous_binding
    guard (is_own_binding actor_id actor (rows.bindings id)) binding_not_active

  -- the rules for the revision of the target
  unfoldable pub check_revision : Target → AuthorizationRevision → ℕ → Result PlanError (Unit {0})
  check_revision target revision revision_id = do
    guard (is_id target.authorization_revision_id revision_id) revision_not_bound
    guard
        (is_id target.authorization_profile_id revision.authorization_profile_id
          && revision.lifecycle_state =ₜ text "active")
        revision_not_active

  -- `enumerate(frozen_actions, start=1)`
  abbrev pub number_from : ℕ → List PlanActionInput → List ActionRow
  number_from ordinal [] = []
  number_from ordinal (a ∷ actions) =
      record {
        ordinal = ordinal;
        method = a.method;
        url = a.url;
        test_case_id = a.test_case_id;
        resource_id = a.resource_id;
      }
      ∷ number_from (suc ordinal) actions

  abbrev pub content_of : PlanInput → Value → Content
  content_of i context = record {
    target_id = i.target_id;
    authorization_revision_id = i.authorization_revision_id;
    actor_identity_id = i.actor_identity_id;
    credential_binding_id = i.credential_binding_id;
    policy_context = context;
    actions = i.actions;
  }

  -- the rows as they are read back
  abbrev pub snapshot_of : ℕ → PlanInput → Value → Text → Snapshot
  snapshot_of id i context digest = record {
    plan = some (record {
      id = id;
      target_id = i.target_id;
      authorization_revision_id = i.authorization_revision_id;
      actor_identity_id = i.actor_identity_id;
      credential_binding_id = i.credential_binding_id;
      digest_version = digest_version_v1;
      plan_digest = digest;
      action_count = length i.actions;
      policy_context = lib.jsonb context;
    });
    actions = number_from 1 i.actions;
  }

  -- `_create_execution_plan`; the identifier is the one that the database gives
  unfoldable pub insert_execution_plan : ℕ → PlanInput → Result PlanError Snapshot
  unfolding check_revision check_credential check_action canonicalize_policy_context
      compute_plan_digest_v1
  insert_execution_plan id i = do
    guard (leb 1 (length i.actions) && leb (length i.actions) max_plan_actions) wrong_action_count
    target ← found (rows.targets i.target_id) target_or_revision_missing
    revision ← found (rows.revisions i.authorization_revision_id) target_or_revision_missing
    check_revision target revision i.authorization_revision_id
    actor ← found (rows.identities i.actor_identity_id) foreign_actor
    guard (actor.target_id == i.target_id) foreign_actor
    check_credential i.actor_identity_id actor i.credential_binding_id
    origin ← lift origin_rejected (parse_origin py target.base_url)
    check_actions i.target_id origin i.actions
    context ← canonicalize_policy_context lib i.policy_context
    digest ← found (compute_plan_digest_v1 lib (content_of i context)) not_serializable
    ok (snapshot_of id i context digest)

  unfoldable pub create_execution_plan : ℕ → PlanInput → Result PlanError Snapshot
  unfolding insert_execution_plan
  create_execution_plan id i = do
    guard (not (is_research_context i.policy_context)) research_closed
    guard (not (any (λ a. is_research_case a.test_case_id) i.actions)) research_closed
    insert_execution_plan id i
