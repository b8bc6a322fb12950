-- ===== src/Executor.antt =====
-- PolicyEnforcedHTTPExecutor of backend/app/executors/http.py: the gates between a caller and the
-- network gateway, with the log of what was called in which order.
pub mod Clearance
mod Tests
use ai_api_security_platform.Prelude.{
  ℕ, ◌==◌, ◌≡◌, Bool, true, false, not, ◌&&◌, Option, none, some, List, [], ◌∷◌, Text, text, ◌=ₜ◌,
  strip, Result, ok, err, if◌then◌else◌,
}
use ai_api_security_platform.Policy.Python.{Python}
use ai_api_security_platform.Policy.Engine.{
  Target, AuthorizationRevision, Scope, Code, PolicyDecision, aware, Request, evaluate,
  normalize_method,
}
use ai_api_security_platform.Network.Destination.{NetworkMode, private_local, Internet}
use ai_api_security_platform.Network.Controller.{Identifier}
use ai_api_security_platform.Network.Gateway.{
  GatewayError, Header, World, GatewayRequest, GatewayResult, request,
}

-- The codes of ExecutionBlockedError, those that backend/app/services/plan_execution.py raises it
-- with included; `policy_denied` carries a code of the policy engine over.
pub data Blocked : Type 0 where
  automatic_method_blocked authorization_refresh_missing invalid_authorization_rate_limit : Blocked
  shared_rate_coordination_failed authorization_revision_changed : Blocked
  external_network_mode_not_ready safety_audit_observer_missing : Blocked
  safety_audit_persistence_failed : Blocked
  execution_plan_cancellation_coordination_failed execution_plan_cancelled : Blocked
  execution_plan_authorization_invalid execution_plan_provenance_invalid : Blocked
  execution_plan_approval_required execution_plan_credential_invalid : Blocked
  execution_plan_result_lookup_failed execution_plan_claim_unavailable : Blocked
  execution_plan_claim_coordination_failed execution_plan_in_doubt : Blocked
  execution_plan_progress_lost execution_plan_progress_coordination_failed : Blocked
  execution_plan_claim_lost execution_plan_integrity_changed execution_plan_approval_changed :
      Blocked
  execution_plan_result_fencing_lost execution_plan_result_fencing_failed : Blocked
  execution_plan_result_persistence_failed execution_plan_claim_cleanup_failed : Blocked
  policy_denied : Code → Blocked

-- `uncaught` is an exception of a callback or a ValueError, which the executor does not handle.
pub data ExecutionError : Type 0 where
  blocked : Blocked → ExecutionError
  network_failed : GatewayError → ExecutionError
  uncaught : ExecutionError

-- What the executor reads of a target, a revision and the scopes together.
pub record Authorization : Type 0 where
  pub target : Target
  pub target_id : Identifier
  pub network_mode : NetworkMode
  pub revision : Option AuthorizationRevision
  pub scopes : List Scope

-- What a callback does: it returns a value or raises.
pub data Callback {ℓ} (A : Type ℓ) : Type ℓ where
  returns : A → Callback A
  raises_blocked : Blocked → Callback A
  raises : Callback A

-- How `rate_limiter.wait` ends.
pub data Waited : Type 0 where
  admitted_by_rate misconfigured uncoordinated wait_raised : Waited

-- The callbacks of one call, and the clock at the two evaluations.
pub record Caller : Type 0 where
  pub wait : Waited
  pub refresh : Option (Callback Authorization)
  pub observer : Option (PolicyDecision → Callback (Unit {0}))
  pub before_network : Option (Callback (Unit {0}))
  pub has_boundary : Bool
  pub first_now : ℕ
  pub second_now : ℕ

pub data Effect : Type 0 where
  observed : PolicyDecision → Effect
  waited refreshed marked : Effect
  sent : GatewayRequest → Effect

pub record Run : Type 0 where
  pub log : List Effect
  pub result : Result ExecutionError GatewayResult

abbrev pub fails : ExecutionError → Run
fails e = record { log = []; result = err e }

abbrev pub logged : Effect → Run → Run
logged e r = record r { log = e ∷ r.log }

abbrev pub same_id : Option ℕ → Option ℕ → Bool
same_id none none = true
same_id (some a) (some b) = a == b
same_id _ _ = false

-- the test of the revision after the refresh, negated
abbrev pub is_same_revision : Option ℕ → Authorization → Bool
is_same_revision selected fresh = elim fresh.revision [
  | none ↦ false
  | some r ↦ same_id fresh.target.authorization_revision_id selected && same_id (some r.id) selected
]

abbrev pub is_private_local : NetworkMode → Bool
is_private_local private_local = true
is_private_local _ = false

abbrev or_network_failed : Result GatewayError GatewayResult → Result ExecutionError GatewayResult
or_network_failed (ok r) = ok r
or_network_failed (err e) = err (network_failed e)

-- `_raise_if_denied`
abbrev pub unless_denied : PolicyDecision → Run → Run
unless_denied d r = if d.allowed then r else fails (blocked (policy_denied d.code))

-- the observer's call, and what follows it
abbrev pub after_observer : Callback (Unit {0}) → Run → Run
after_observer (returns _) r = r
after_observer (raises_blocked b) r = fails (blocked b)
after_observer raises r = fails (blocked safety_audit_persistence_failed)

-- `_observe_policy_decision`, and what follows it
abbrev pub observing : Option (PolicyDecision → Callback (Unit {0})) → PolicyDecision → Run → Run
observing none d r = fails (blocked safety_audit_observer_missing)
observing (some observer) d r = logged (observed d) (after_observer (observer d) r)

-- `policy_engine.evaluate`, and what follows it
abbrev pub deciding : Option PolicyDecision → (PolicyDecision → Run) → Run
deciding none next = fails uncaught
deciding (some d) next = next d

-- `rate_limiter.wait`, and what follows it
abbrev pub waiting : Waited → Run → Run
waiting admitted_by_rate r = r
waiting misconfigured r = fails (blocked invalid_authorization_rate_limit)
waiting uncoordinated r = fails (blocked shared_rate_coordination_failed)
waiting wait_raised r = fails uncaught

-- A callback whose exceptions are not handled, and what follows it.
abbrev pub calling {ℓ} : {A : Type ℓ} → Callback A → (A → Run) → Run
calling (returns a) next = next a
calling (raises_blocked b) next = fails (blocked b)
calling raises next = fails uncaught

-- `before_network`, where there is one and there is no boundary, and what follows it
abbrev pub marking : Option (Callback (Unit {0})) → Bool → Run → Run
marking none boundary r = r
marking (some callback) true r = r
marking (some callback) false r = logged marked (calling callback (λ _. r))

-- the refresh, where the caller gives one
abbrev pub refreshing : Option (Callback Authorization) → (Callback Authorization → Run) → Run
refreshing none next = fails (blocked authorization_refresh_missing)
refreshing (some refresh) next = next refresh

module _ (py : Python) (hosts : List Text) (net : Internet) (w : World) (c : Caller) (url : Text)
    (headers : List Header) where
  abbrev pub decision_on : ℕ → Authorization → Text → Option PolicyDecision
  decision_on now a method =
      evaluate py hosts a.target a.revision a.scopes (record { url = url; method = method })
        (aware now)

  abbrev pub gateway_request : Text → Authorization → GatewayRequest
  gateway_request method fresh = record {
    target_id = fresh.target_id;
    network_mode = fresh.network_mode;
    method = method;
    url = url;
    headers = headers;
    max_response_bytes = if c.has_boundary then 16384 else 1000000;
    timeout_seconds = 5;
  }

  unfoldable pub send : Text → Authorization → Run
  send method fresh = record {
    log = sent (gateway_request method fresh) ∷ [];
    result = or_network_failed (request net w (gateway_request method fresh));
  }

  unfoldable pub mark : Text → Authorization → Run
  mark method fresh = marking c.before_network c.has_boundary (send method fresh)

  unfoldable pub check_mode : Text → Authorization → Run
  check_mode method fresh =
      if is_private_local fresh.network_mode
      then mark method fresh
      else fails (blocked external_network_mode_not_ready)

  -- after the refresh
  unfoldable pub recheck : Text → Option ℕ → Authorization → Run
  recheck method selected fresh =
      if is_same_revision selected fresh
      then deciding (decision_on c.second_now fresh method)
          (λ d. observing c.observer d (unless_denied d (check_mode method fresh)))
      else fails (blocked authorization_revision_changed)

  -- the rate limit and the refresh
  unfoldable pub wait_and_refresh : Text → Option ℕ → Callback Authorization → Run
  wait_and_refresh method selected refresh =
      logged waited (waiting c.wait (logged refreshed (calling refresh (recheck method selected))))

  -- after the first decision
  unfoldable pub proceed : Text → PolicyDecision → Run
  proceed method d =
      if d.allowed
      then refreshing c.refresh (wait_and_refresh method d.authorization_revision_id)
      else observing c.observer d (unless_denied d (fails uncaught))

  unfoldable pub execute : Authorization → Text → Run
  execute a method =
      if normalize_method py method =ₜ text "GET"
      then deciding (decision_on c.first_now a (normalize_method py method))
          (proceed (normalize_method py method))
      else fails (blocked automatic_method_blocked)
