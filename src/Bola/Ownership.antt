-- ===== src/Bola/Ownership.antt =====
-- backend/app/domain/ownership.py
use ai_api_security_platform.Prelude.{
  ℕ, ◌==◌, Bool, false, not, Option, none, some, Text, text, ◌=ₜ◌, Result, ok, err, if◌then◌else◌,
}

-- The fields that are read of the rows of test_identities and resources.
pub record TestIdentity : Type 0 where
  pub id : ℕ
  pub target_id : ℕ
  pub auth_type : Text
  pub is_active : Bool

pub record Resource : Type 0 where
  pub id : ℕ
  pub target_id : ℕ
  pub resource_type : Text
  pub external_id : Text
  pub owner_identity_id : Option ℕ

pub data OwnershipRelation : Type 0 where
  owner cross_owner anonymous : OwnershipRelation

pub data OwnershipError : Type 0 where
  different_targets : OwnershipError

-- `actor.id == resource.owner_identity_id`
abbrev pub owns : ℕ → Option ℕ → Bool
owns id none = false
owns id (some o) = id == o

unfoldable pub determine_ownership_relation :
    TestIdentity → Resource → Result OwnershipError OwnershipRelation
determine_ownership_relation actor resource =
    if not (actor.target_id == resource.target_id)
    then err different_targets
    else if actor.auth_type =ₜ text "anonymous"
    then ok anonymous
    else if owns actor.id resource.owner_identity_id
    then ok owner
    else ok cross_owner
