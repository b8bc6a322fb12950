-- ===== src/Bola/Generator.antt =====
-- backend/app/generators/bola.py: test cases for every actor and resource of an endpoint's target.
pub mod Coverage
pub mod Cases
use ai_api_security_platform.Prelude.{
  ℕ, ◌==◌, leb, Bool, true, false, not, ◌&&◌, ◌||◌, Option, none, some, List, [], ◌∷◌, ◌++◌, map,
  filter, any, all, Text, text, ◌=ₜ◌, lower_ascii, starts_with, ends_with, Result, ok, err, ◌>>=◌,
  if◌then◌else◌,
}
use mathlib.Core.List.{reverse}
use ai_api_security_platform.Bola.Ownership.{
  TestIdentity, Resource, OwnershipRelation, owner, cross_owner, anonymous, OwnershipError,
  determine_ownership_relation,
}

pub record Endpoint : Type 0 where
  pub id : ℕ
  pub target_id : ℕ
  pub method : Text
  pub path : Text

pub record EndpointResourceBinding : Type 0 where
  pub parameter_name : Text
  pub resource_type : Text

abbrev is_letter : ℕ → Bool
is_letter c = leb b'A' c && leb c b'Z' || leb b'a' c && leb c b'z'

abbrev is_word : ℕ → Bool
is_word c = is_letter c || leb b'0' c && leb c b'9' || c == b'_'

-- `\{([A-Za-z][A-Za-z0-9_]*)_id\}` at a brace: the word up to the closing brace, reversed.
unfoldable pub word_before_brace : Text → Text → Option Text
word_before_brace [] word = none
word_before_brace (c ∷ s) word =
    let rest = word_before_brace s (c ∷ word) in
    if c == b'}' then some word else if is_word c then rest else none

abbrev starts_with_letter : Text → Bool
starts_with_letter [] = false
starts_with_letter (c ∷ s) = is_letter c

-- the group of a match: the word without its suffix `_id`
abbrev base_of : Text → Option Text
base_of (d ∷ i ∷ u ∷ base) =
    if (d ∷ i ∷ u ∷ []) =ₜ text "di_" && starts_with_letter (reverse base)
    then some (reverse base)
    else none
base_of _ = none

abbrev match_at : Option Text → Option Text
match_at none = none
match_at (some word) = base_of word

abbrev add_match : Option Text → List Text → List Text
add_match none found = found
add_match (some base) found = base ∷ found

-- `finditer`: a match holds no second brace, so matches never overlap.
unfoldable pub matches : Text → List Text
unfolding word_before_brace
matches [] = []
matches (c ∷ s) =
    let rest = matches s in
    if c == b'{' then add_match (match_at (word_before_brace s [])) rest else rest

-- exactly one match
abbrev binding_of : List Text → Option EndpointResourceBinding
binding_of (base ∷ []) =
    some (record { parameter_name = base ++ text "_id"; resource_type = map lower_ascii base })
binding_of _ = none

unfoldable pub detect_resource_binding : Endpoint → Option EndpointResourceBinding
unfolding matches
detect_resource_binding endpoint = binding_of (matches endpoint.path)

pub data TestType : Type 0 where
  owner_baseline bola_cross_owner anonymous_access : TestType

pub record GeneratedTestCase : Type 0 where
  pub endpoint_id : ℕ
  pub actor_identity_id : ℕ
  pub resource_id : ℕ
  pub test_type : TestType
  pub ownership_relation : OwnershipRelation
  pub expected_statuses : List ℕ

-- OWNER_EXPECTED_STATUSES_BY_METHOD; its keys are SUPPORTED_BOLA_METHODS
unfoldable pub owner_statuses : Text → Option (List ℕ)
owner_statuses m =
    if m =ₜ text "GET"
    then some (200 ∷ [])
    else if m =ₜ text "PATCH" || m =ₜ text "DELETE"
    then some (200 ∷ 204 ∷ [])
    else none

abbrev pub test_type_of : OwnershipRelation → TestType
test_type_of owner = owner_baseline
test_type_of cross_owner = bola_cross_owner
test_type_of anonymous = anonymous_access

abbrev pub statuses_of : List ℕ → OwnershipRelation → List ℕ
statuses_of owners owner = owners
statuses_of owners cross_owner = 403 ∷ 404 ∷ []
statuses_of owners anonymous = 401 ∷ 403 ∷ 404 ∷ []

abbrev pub test_case :
    Endpoint → List ℕ → TestIdentity → Resource → OwnershipRelation → GeneratedTestCase
test_case e owners actor resource relation = record {
  endpoint_id = e.id;
  actor_identity_id = actor.id;
  resource_id = resource.id;
  test_type = test_type_of relation;
  ownership_relation = relation;
  expected_statuses = statuses_of owners relation;
}

-- The innermost loop.
unfoldable pub for_resources :
    Endpoint
    → List ℕ
    → TestIdentity
    → List Resource
    → Result OwnershipError (List GeneratedTestCase)
for_resources e owners actor [] = ok []
for_resources e owners actor (r ∷ rs) = determine_ownership_relation actor r >>= λ relation.
    for_resources e owners actor rs >>= λ cases. ok (test_case e owners actor r relation ∷ cases)

unfoldable pub for_actors :
    Endpoint
    → List ℕ
    → List TestIdentity
    → List Resource
    → Result OwnershipError (List GeneratedTestCase)
unfolding for_resources
for_actors e owners [] resources = ok []
for_actors e owners (a ∷ actors) resources = for_resources e owners a resources >>= λ mine.
    for_actors e owners actors resources >>= λ cases. ok (mine ++ cases)

abbrev pub matching_resources : Endpoint → Text → List Resource → List Resource
matching_resources e type resources =
    filter (λ r. r.target_id == e.target_id && r.resource_type =ₜ type) resources

abbrev pub matching_actors : Endpoint → List TestIdentity → List TestIdentity
matching_actors e actors = filter (λ a. a.target_id == e.target_id && a.is_active) actors

-- One round of the outer loop: a `continue` generates nothing.
abbrev bound_cases :
    Endpoint
    → List TestIdentity
    → List Resource
    → Option (List ℕ)
    → Option EndpointResourceBinding
    → Result OwnershipError (List GeneratedTestCase)
bound_cases e actors resources none binding = ok []
bound_cases e actors resources (some owners) none = ok []
bound_cases e actors resources (some owners) (some b) =
    for_actors e owners (matching_actors e actors) (matching_resources e b.resource_type resources)

unfoldable pub for_endpoint :
    List TestIdentity → List Resource → Endpoint → Result OwnershipError (List GeneratedTestCase)
unfolding for_actors
for_endpoint actors resources e =
    bound_cases e actors resources (owner_statuses e.method) (detect_resource_binding e)

unfoldable pub generate_bola_test_cases :
    List Endpoint
    → List TestIdentity
    → List Resource
    → Result OwnershipError (List GeneratedTestCase)
unfolding for_endpoint
generate_bola_test_cases [] actors resources = ok []
generate_bola_test_cases (e ∷ endpoints) actors resources =
    for_endpoint actors resources e >>= λ mine.
    generate_bola_test_cases endpoints actors resources >>= λ cases. ok (mine ++ cases)
