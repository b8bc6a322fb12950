-- ===== src/Plans/Tests.antt =====
-- A plan of one action: it is created, approved and revoked, on concrete functions in place of
-- Python's library.
use ai_api_security_platform.Prelude.{
  ◌==◌, ◌≡◌, ◌↔◌, refl, true, false, none, some, [], ◌∷◌, map, lower_ascii, filter, In, Text, text,
  ok, if◌then◌else◌,
}
use ai_api_security_platform.Policy.Tests.{py, target, revision, item_url}
use ai_api_security_platform.Policy.Origin.{parse_origin, normalize_hostname}
use ai_api_security_platform.Policy.Paths.{normalize_request_path, checked_path}
use ai_api_security_platform.Bola.Json.{object, no_fields}
use ai_api_security_platform.Plans.Secrets.{
  secret_key_bases, is_kept, is_secret_bearing_key, has_secret,
}
use ai_api_security_platform.Plans.Secrets.Keys.{IsBased, is_secret_bearing_key_iff}
use ai_api_security_platform.Plans.Digest.{
  Library, PlanActionInput, ExecutionPlan, compute_plan_digest_v1,
}
use ai_api_security_platform.Plans.Creation.{
  Rows, PlanInput, Snapshot, snapshot_of, canonicalize_policy_context, check_action,
  check_credential, check_revision, insert_execution_plan, create_execution_plan,
}
use ai_api_security_platform.Plans.Approval.{
  ApprovalRecord, input_of, validate_persisted_plan_integrity, new_plan, is_plan_approved,
  append_exact_decision, record_plan_decision,
}
use ai_api_security_platform.Plans.Approval.Decisions.{IsApproved, decision_decides, IsApproved-iff}
use ai_api_security_platform.Plans.Intact.{create-validate}
use ai_api_security_platform.Plans.Admissible.{IsAdmissible, create-IsAdmissible}

abbrev digest : Text
digest = text "aaaaaaaaaaaaaaaabbbbbbbbbbbbbbbbccccccccccccccccdddddddddddddddd"

abbrev pub lib : Library
lib = record {
  lower = map lower_ascii;
  dumps = λ _. some (text "{}");
  loads = λ _. some (object no_fields);
  utf8 = λ s. s;
  sha256 = λ _. digest;
  decimal = λ n. n ∷ [];
  fragment = λ _. [];
  query = λ _. [];
  jsonb = λ v. v;
}

abbrev pub rows : Rows
rows = record {
  targets = λ id. if id == 4 then some target else none;
  revisions = λ id. if id == 5 then some revision else none;
  identities =
      λ _. some (record { id = 3; target_id = 4; auth_type = text "none"; is_active = true });
  bindings = λ _. none;
  resources = λ _. none;
  endpoints = λ _. none;
  test_cases = λ _. none;
  is_research_member = λ _. false;
}

abbrev action : PlanActionInput
action = record { method = text "GET"; url = item_url; test_case_id = none; resource_id = none }

abbrev input : PlanInput
input = record {
  target_id = 4;
  authorization_revision_id = 5;
  actor_identity_id = 3;
  credential_binding_id = none;
  actions = action ∷ [];
  policy_context = none;
}

abbrev pub created : Snapshot
created = snapshot_of lib py rows 7 input (object no_fields) digest

is_created : create_execution_plan lib py rows 7 input ≡ ok created
unfolding create_execution_plan insert_execution_plan check_revision check_credential check_action
    canonicalize_policy_context compute_plan_digest_v1 parse_origin normalize_hostname
    normalize_request_path checked_path has_secret
is_created = refl

create-validate_example :
    (plan : ExecutionPlan) × (created.plan ≡ some plan)
    × (validate_persisted_plan_integrity lib created ≡ ok plan)
create-validate_example =
    create-validate lib py rows (λ b. refl) 7 input created is_created (λ v e. refl)

create-IsAdmissible_example :
    IsAdmissible lib py rows created × (map input_of created.actions ≡ input.actions)
create-IsAdmissible_example = create-IsAdmissible lib py rows 7 input created is_created

abbrev pub approval : ApprovalRecord
approval = record {
  execution_plan_id = 7;
  digest_version = text "v1";
  plan_digest = digest;
  decision = text "approved";
}

abbrev pub revocation : ApprovalRecord
revocation = record approval { decision = text "revoked" }

pub revoked :
    record_plan_decision lib py rows (λ _. false) created (text "revoked") (approval ∷ [])
    ≡ ok (revocation ∷ approval ∷ [])
unfolding record_plan_decision validate_persisted_plan_integrity new_plan append_exact_decision
    compute_plan_digest_v1
revoked = refl

decision_decides_example :
    is_plan_approved lib py rows (λ _. false) created (revocation ∷ approval ∷ []) ≡ ok false
decision_decides_example =
    decision_decides lib py rows (λ _. false) created (text "revoked") (approval ∷ [])
      (revocation ∷ approval ∷ []) revoked

IsApproved-iff_example :
    (is_plan_approved lib py rows (λ _. false) created (approval ∷ revocation ∷ []) ≡ ok true) ↔ (
      (plan : ExecutionPlan) × (validate_persisted_plan_integrity lib created ≡ ok plan)
      × (new_plan lib py rows (λ _. false) plan created.actions ≡ false)
      × IsApproved lib py rows (λ _. false) plan (approval ∷ revocation ∷ []))
IsApproved-iff_example =
    IsApproved-iff lib py rows (λ _. false) created (approval ∷ revocation ∷ [])

is_secret_bearing_key_iff_example :
    (is_secret_bearing_key (map lower_ascii) (text "Access-Token-Value") ≡ true) ↔ (
      (base : Text) × In base secret_key_bases
      × IsBased (filter is_kept (map lower_ascii (text "Access-Token-Value"))) base)
is_secret_bearing_key_iff_example =
    is_secret_bearing_key_iff (map lower_ascii) (text "Access-Token-Value")
