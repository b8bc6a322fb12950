-- ===== src/Plans/Digest.antt =====
-- The rows of execution_plans and plan_actions, and `compute_plan_digest_v1` of execution_plan.py.
use ai_api_security_platform.Prelude.{ℕ, suc, Option, none, some, List, [], ◌∷◌, length, Text, text}
use ai_api_security_platform.Bola.Json.{
  Value, null, number, string, array, object, no_fields, field, Items, no_items, and_item,
}

-- What the code calls of PostgreSQL and of Python's library: `jsonb` is what a column of type JSONB
-- gives back of a value (it keeps numbers by their value, not by their spelling); `json.dumps` with the options of `_canonical_json` (none is
-- a TypeError or a ValueError), `json.loads`, UTF-8, the hexadecimal SHA-256, `str` of an int, and the
-- fragment and the parsed query of a URL.
pub record Library : Type 0 where
  pub lower : Text → Text
  pub dumps : Value → Option Text
  pub loads : Text → Option Value
  pub utf8 : Text → List ℕ
  pub sha256 : List ℕ → Text
  pub decimal : ℕ → Text
  pub fragment : Text → Text
  pub query : Text → List (Text × Text)
  pub jsonb : Value → Value

pub record PlanActionInput : Type 0 where
  pub method : Text
  pub url : Text
  pub test_case_id : Option ℕ
  pub resource_id : Option ℕ

pub record ActionRow : Type 0 where
  pub ordinal : ℕ
  pub method : Text
  pub url : Text
  pub test_case_id : Option ℕ
  pub resource_id : Option ℕ

pub record ExecutionPlan : Type 0 where
  pub id : ℕ
  pub target_id : ℕ
  pub authorization_revision_id : ℕ
  pub actor_identity_id : ℕ
  pub credential_binding_id : Option ℕ
  pub digest_version : Text
  pub plan_digest : Text
  pub action_count : ℕ
  pub policy_context : Value

-- `DIGEST_VERSION`
abbrev pub digest_version_v1 : Text
digest_version_v1 = text "v1"

-- The arguments of the digest.
pub record Content : Type 0 where
  pub target_id : ℕ
  pub authorization_revision_id : ℕ
  pub actor_identity_id : ℕ
  pub credential_binding_id : Option ℕ
  pub policy_context : Value
  pub actions : List PlanActionInput

module _ (lib : Library) where
  abbrev integer : ℕ → Value
  integer n = number (lib.decimal n)

  abbrev optional : Option ℕ → Value
  optional none = null
  optional (some n) = integer n

  abbrev action_value : ℕ → PlanActionInput → Value
  action_value ordinal a = object (
      field (text "ordinal") (integer ordinal) (
        field (text "method") (string a.method) (
          field (text "url") (string a.url) (
            field (text "test_case_id") (optional a.test_case_id)
              (field (text "resource_id") (optional a.resource_id) no_fields)))))

  -- `enumerate(actions, start=1)`
  abbrev action_values : ℕ → List PlanActionInput → Items
  action_values ordinal [] = no_items
  action_values ordinal (a ∷ actions) =
      and_item (action_value ordinal a) (action_values (suc ordinal) actions)

  abbrev pub payload : Content → Value
  payload c = object (
      field (text "digest_version") (string digest_version_v1) (
        field (text "target_id") (integer c.target_id) (
          field (text "authorization_revision_id") (integer c.authorization_revision_id) (
            field (text "actor_identity_id") (integer c.actor_identity_id) (
              field (text "credential_binding_id") (optional c.credential_binding_id) (
                field (text "policy_context") c.policy_context (
                  field (text "action_count") (integer (length c.actions))
                    (field (text "actions") (array (action_values 1 c.actions)) no_fields))))))))

  -- none is the error of `_canonical_json`
  unfoldable pub compute_plan_digest_v1 : Content → Option Text
  compute_plan_digest_v1 c = elim (lib.dumps (payload c)) [
    | none ↦ none
    | some canonical ↦ some (lib.sha256 (lib.utf8 canonical))
  ]
