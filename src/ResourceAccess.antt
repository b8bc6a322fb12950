-- ===== src/ResourceAccess.antt =====
-- backend/app/services/resource_access_resolution.py: what the verified assertions say of a test
-- identity's access to a resource.
pub mod Values
pub mod Verdict
mod Tests
use ai_api_security_platform.Prelude.{
  ℕ, zero, suc, ◌==◌, leb, ltb, Bool, true, false, not, ◌&&◌, ◌||◌, Option, none, some, List, [],
  ◌∷◌, any, map, filter, length, Text, text, ◌=ₜ◌, Result, ok, err, ◌>>=◌, ◌>>◌, guard,
  if◌then◌else◌,
}
use ai_api_security_platform.Policy.Engine.{Moment, naive, aware}
use ai_api_security_platform.Bola.Ownership.{TestIdentity, Resource}

-- A row of resource_access_assertions.
pub record Assertion : Type 0 where
  pub id : ℕ
  pub resource_id : ℕ
  pub test_identity_id : ℕ
  pub verification_state : Text
  pub asserted_at : ℕ
  pub valid_from : Option ℕ
  pub valid_until : Option ℕ
  pub relationship : Text
  pub expected_access : Text

-- The codes of ResourceAccessResolutionError.
pub data ResolutionError : Type 0 where
  evaluation_time_timezone_required resource_not_found test_identity_not_found : ResolutionError
  resource_identity_target_mismatch resolution_limit_exceeded : ResolutionError

pub data ResolutionState : Type 0 where
  resolved insufficient conflict : ResolutionState

pub record ResourceAccessResolution : Type 0 where
  pub resource_id : ℕ
  pub test_identity_id : ℕ
  pub evaluation_time : ℕ
  pub state : ResolutionState
  pub relationship : Text
  pub expected_access : Text
  pub supporting_assertion_ids : List ℕ

-- The tables; the assertions stand in the order of their identifiers.
pub record Tables : Type 0 where
  pub resources : ℕ → Option Resource
  pub identities : ℕ → Option TestIdentity
  pub assertions : List Assertion

abbrev pub max_assertions_scanned : ℕ
max_assertions_scanned = 256

abbrev pub unspecified : Text
unspecified = text "unspecified"

abbrev pub has_begun : ℕ → Option ℕ → Bool
has_begun now none = true
has_begun now (some from) = leb from now

abbrev pub has_not_ended : ℕ → Option ℕ → Bool
has_not_ended now none = true
has_not_ended now (some until) = ltb now until

-- the WHERE of the query
unfoldable pub is_valid_for : ℕ → ℕ → ℕ → Assertion → Bool
is_valid_for resource identity now a =
    a.resource_id == resource
    && a.test_identity_id == identity
    && a.verification_state =ₜ text "verified"
    && leb a.asserted_at now
    && has_begun now a.valid_from
    && has_not_ended now a.valid_until

abbrev pub take : ℕ → List Assertion → List Assertion
take zero rows = []
take (suc n) [] = []
take (suc n) (a ∷ rows) = a ∷ take n rows

-- A set of texts, as a list without duplicates.
abbrev pub set_of : List Text → List Text
set_of [] = []
set_of (x ∷ xs) = let rest = set_of xs in if any (λ y. x =ₜ y) rest then rest else x ∷ rest

-- `relationship_values` and `access_values` before the set is formed
abbrev pub specified : (Assertion → Text) → List Assertion → List Text
specified field rows = map field (filter (λ a. not (field a =ₜ unspecified)) rows)

abbrev pub single : List Text → Text
single (x ∷ []) = x
single _ = unspecified

abbrev pub has_many : List Text → Bool
has_many (x ∷ y ∷ xs) = true
has_many _ = false

unfoldable pub state_of : List Text → List Text → ResolutionState
state_of relationships accesses =
    if has_many relationships || has_many accesses
    then conflict
    else if single relationships =ₜ unspecified && single accesses =ₜ unspecified
    then insufficient
    else resolved

abbrev pub is_supporting : Assertion → Bool
is_supporting a = not (a.relationship =ₜ unspecified) || not (a.expected_access =ₜ unspecified)

unfoldable pub resolution_of : ℕ → ℕ → ℕ → List Assertion → ResourceAccessResolution
unfolding state_of
resolution_of resource identity now rows =
    let relationships = set_of (specified (λ a. a.relationship) rows) in
    let accesses = set_of (specified (λ a. a.expected_access) rows) in
    record {
      resource_id = resource;
      test_identity_id = identity;
      evaluation_time = now;
      state = state_of relationships accesses;
      relationship = single relationships;
      expected_access = single accesses;
      supporting_assertion_ids = map (λ a. a.id) (filter is_supporting rows);
    }

abbrev pub timed : Moment → Result ResolutionError ℕ
timed naive = err evaluation_time_timezone_required
timed (aware now) = ok now

abbrev pub found : {A : Type 0} → Option A → ResolutionError → Result ResolutionError A
found none e = err e
found (some a) e = ok a

unfoldable pub resolve_resource_access :
    Tables → ℕ → ℕ → Moment → Result ResolutionError ResourceAccessResolution
unfolding is_valid_for resolution_of
resolve_resource_access tables resource_id identity_id evaluation_time = do
  now ← timed evaluation_time
  resource ← found (tables.resources resource_id) resource_not_found
  identity ← found (tables.identities identity_id) test_identity_not_found
  guard (resource.target_id == identity.target_id) resource_identity_target_mismatch
  guard
      (leb
        (length (
          take (suc max_assertions_scanned)
            (filter (is_valid_for resource_id identity_id now) tables.assertions)))
        max_assertions_scanned)
      resolution_limit_exceeded
  ok (
      resolution_of resource_id identity_id now (
        take (suc max_assertions_scanned)
          (filter (is_valid_for resource_id identity_id now) tables.assertions)))
