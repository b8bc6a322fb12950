-- ===== src/Plans/Approval.antt =====
-- backend/app/services/execution_plan_approval.py, and `new_plan` of research_intent_gate.py.
pub mod Decisions
use ai_api_security_platform.Prelude.{
  ℕ, suc, ◌==◌, leb, Bool, true, false, not, ◌&&◌, ◌||◌, Option, none, some, List, [], ◌∷◌, all,
  any, map, length, Text, text, ◌=ₜ◌, Result, ok, err, ◌>>=◌, ◌>>◌, guard, if◌then◌else◌,
}
use ai_api_security_platform.Policy.Python.{Python}
use ai_api_security_platform.Bola.Json.{Value, object}
use ai_api_security_platform.Plans.Digest.{
  Library, PlanActionInput, ActionRow, ExecutionPlan, digest_version_v1, Content,
  compute_plan_digest_v1,
}
use ai_api_security_platform.Plans.Creation.{
  Rows, Snapshot, found, is_research_context, is_research_case,
}

-- The messages of PlanIntegrityError, and the error of `_canonical_json`, which is none of them.
pub data IntegrityError : Type 0 where
  plan_unavailable wrong_ordering unsupported_digest wrong_action_count : IntegrityError
  digest_mismatch invalid_decision research_closed : IntegrityError
  uncaught_serialization : IntegrityError

-- A row of execution_plan_approval_records.
pub record ApprovalRecord : Type 0 where
  pub execution_plan_id : ℕ
  pub digest_version : Text
  pub plan_digest : Text
  pub decision : Text

-- `[action.ordinal for action in actions] == list(range(k, k + len(actions)))`
abbrev pub in_order : ℕ → List ActionRow → Bool
in_order k [] = true
in_order k (a ∷ actions) = a.ordinal == k && in_order (suc k) actions

abbrev pub is_hexadecimal : ℕ → Bool
is_hexadecimal c = leb b'0' c && leb c b'9' || leb b'a' c && leb c b'f'

-- `re.fullmatch(r"[0-9a-f]{64}", s)`
abbrev pub is_digest : Text → Bool
is_digest s = length s == 64 && all is_hexadecimal s

abbrev pub input_of : ActionRow → PlanActionInput
input_of a = record {
  method = a.method;
  url = a.url;
  test_case_id = a.test_case_id;
  resource_id = a.resource_id;
}

abbrev pub content_of : ExecutionPlan → List ActionRow → Content
content_of plan actions = record {
  target_id = plan.target_id;
  authorization_revision_id = plan.authorization_revision_id;
  actor_identity_id = plan.actor_identity_id;
  credential_binding_id = plan.credential_binding_id;
  policy_context = plan.policy_context;
  actions = map input_of actions;
}

-- `_load_plan_snapshot` of the rows that it reads
abbrev pub load_plan_snapshot : Snapshot → Result IntegrityError ExecutionPlan
load_plan_snapshot s = do
  plan ← found s.plan plan_unavailable
  guard (in_order 1 s.actions) wrong_ordering
  ok plan

module _ (lib : Library) where
  unfoldable pub validate_persisted_plan_integrity : Snapshot → Result IntegrityError ExecutionPlan
  unfolding compute_plan_digest_v1
  validate_persisted_plan_integrity s = do
    plan ← load_plan_snapshot s
    guard (plan.digest_version =ₜ digest_version_v1 && is_digest plan.plan_digest)
        unsupported_digest
    guard (plan.action_count == length s.actions) wrong_action_count
    recomputed ←
        found (compute_plan_digest_v1 lib (content_of plan s.actions)) uncaught_serialization
    guard (recomputed =ₜ plan.plan_digest) digest_mismatch
    ok plan

  module _ (py : Python) (rows : Rows) (is_member_plan : ℕ → Bool) where
    -- `new_plan` of research_intent_gate.py; the actions of a plan are at most 100
    unfoldable pub new_plan : ExecutionPlan → List ActionRow → Bool
    new_plan plan actions =
        is_research_context (some plan.policy_context)
        || is_member_plan plan.id
        || any (λ a. is_research_case lib py rows a.test_case_id) actions

    abbrev pub is_exact : ExecutionPlan → ApprovalRecord → Bool
    is_exact plan r =
        r.execution_plan_id == plan.id
        && r.digest_version =ₜ plan.digest_version
        && r.plan_digest =ₜ plan.plan_digest

    -- `_latest_exact_decision`; the records stand in the descending order of their identifiers
    abbrev pub latest_exact_decision : ExecutionPlan → List ApprovalRecord → Option ApprovalRecord
    latest_exact_decision plan [] = none
    latest_exact_decision plan (r ∷ records) =
        if is_exact plan r then some r else latest_exact_decision plan records

    abbrev pub is_approval : Option ApprovalRecord → Bool
    is_approval none = false
    is_approval (some r) = r.decision =ₜ text "approved"

    -- A PlanIntegrityError is answered by False; any other error is let through.
    abbrev pub approval_of :
        List ActionRow
        → List ApprovalRecord
        → Result IntegrityError ExecutionPlan
        → Result IntegrityError Bool
    approval_of actions records (err uncaught_serialization) = err uncaught_serialization
    approval_of actions records (err _) = ok false
    approval_of actions records (ok plan) =
        ok (not (new_plan plan actions) && is_approval (latest_exact_decision plan records))

    unfoldable pub is_plan_approved : Snapshot → List ApprovalRecord → Result IntegrityError Bool
    unfolding validate_persisted_plan_integrity new_plan
    is_plan_approved s records = approval_of s.actions records (validate_persisted_plan_integrity s)

    abbrev pub is_decision : Text → Bool
    is_decision decision = decision =ₜ text "approved" || decision =ₜ text "revoked"

    -- `_append_exact_decision`: the new row has the greatest identifier
    unfoldable pub append_exact_decision :
        ExecutionPlan → Text → List ApprovalRecord → Result IntegrityError (List ApprovalRecord)
    append_exact_decision plan decision records = do
      guard (is_decision decision) invalid_decision
      ok (
          record {
            execution_plan_id = plan.id;
            digest_version = plan.digest_version;
            plan_digest = plan.plan_digest;
            decision = decision;
          }
          ∷ records)

    unfoldable pub record_plan_decision :
        Snapshot → Text → List ApprovalRecord → Result IntegrityError (List ApprovalRecord)
    unfolding validate_persisted_plan_integrity new_plan append_exact_decision
    record_plan_decision s decision records = do
      guard (is_decision decision) invalid_decision
      plan ← validate_persisted_plan_integrity s
      guard (not (new_plan plan s.actions)) research_closed
      append_exact_decision plan decision records
