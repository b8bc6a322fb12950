-- ===== src/ResourceAccess/Tests.antt =====
-- Two verified assertions that agree, and one that is not verified.
use ai_api_security_platform.Prelude.{
  ℕ, ◌==◌, ◌≡◌, refl, true, none, some, [], ◌∷◌, filter, text, ok, if◌then◌else◌,
}
use ai_api_security_platform.Policy.Engine.{aware}
use ai_api_security_platform.ResourceAccess.{
  Assertion, resolved, ResourceAccessResolution, Tables, is_valid_for, state_of, resolution_of,
  unspecified, resolve_resource_access,
}
use ai_api_security_platform.ResourceAccess.Verdict.{IsMeant, resolve-IsMeant}

abbrev owned : Assertion
owned = record {
  id = 1;
  resource_id = 8;
  test_identity_id = 3;
  verification_state = text "verified";
  asserted_at = 10;
  valid_from = some 10;
  valid_until = none;
  relationship = text "owner";
  expected_access = unspecified;
}

abbrev allowed : Assertion
allowed = record owned { id = 2; relationship = unspecified; expected_access = text "allowed" }

abbrev proposed : Assertion
proposed = record owned {
  id = 3;
  verification_state = text "candidate";
  relationship = text "non_owner";
}

abbrev tables : Tables
tables = record {
  resources = λ id.
      if id == 8
      then some (record {
        id = 8;
        target_id = 4;
        resource_type = text "item";
        external_id = text "1";
        owner_identity_id = none;
      })
      else none;
  identities = λ id.
      if id == 3
      then some (record { id = 3; target_id = 4; auth_type = text "none"; is_active = true })
      else none;
  assertions = owned ∷ allowed ∷ proposed ∷ [];
}

abbrev resolution : ResourceAccessResolution
resolution = record {
  resource_id = 8;
  test_identity_id = 3;
  evaluation_time = 20;
  state = resolved;
  relationship = text "owner";
  expected_access = text "allowed";
  supporting_assertion_ids = 1 ∷ 2 ∷ [];
}

is_resolved : resolve_resource_access tables 8 3 (aware 20) ≡ ok resolution
unfolding resolve_resource_access is_valid_for resolution_of state_of
is_resolved = refl

resolve-IsMeant_example :
    (now : ℕ) × (aware 20 ≡ aware now)
    × IsMeant
        (filter (is_valid_for 8 3 now) tables.assertions)
        resolved
        (text "owner")
        (text "allowed")
resolve-IsMeant_example = resolve-IsMeant tables 8 3 (aware 20) resolution is_resolved
