-- ===== src/Bola/Matrix.antt =====
-- backend/app/generators/bola_matrix.py: candidates from explicit access facts.
pub mod Plan
use ai_api_security_platform.Prelude.{
  ℕ, suc, ◌+◌, ◌==◌, ltb, Bool, true, false, not, ◌&&◌, ◌||◌, Option, none, some, List, [], ◌∷◌,
  ◌++◌, any, all, Text, text, ◌=ₜ◌, Result, ok, err, ◌>>=◌, if◌then◌else◌,
}

pub data ResolutionState : Type 0 where
  resolved insufficient conflict : ResolutionState

pub data Relationship : Type 0 where
  owner shared non_owner unspecified_relationship : Relationship

pub data ExpectedAccess : Type 0 where
  allowed denied unspecified_access : ExpectedAccess

pub data CandidateKind : Type 0 where
  owner_access cross_subject_access shared_access anonymous_access : CandidateKind

pub data SubjectKind : Type 0 where
  authenticated anonymous : SubjectKind

pub data PlanningError : Type 0 where
  fact_limit_exceeded duplicate_access_fact invalid_access_fact : PlanningError

pub record AccessFact : Type 0 where
  pub endpoint_id : ℕ
  pub resource_id : ℕ
  pub test_identity_id : ℕ
  pub identity_auth_type : Text
  pub resolution_state : ResolutionState
  pub relationship : Relationship
  pub expected_access : ExpectedAccess
  pub supporting_assertion_ids : List ℕ

-- `BOLAMatrixAccessFact.__post_init__`, of what the types above leave open
unfoldable pub access_fact : AccessFact → Result PlanningError AccessFact
access_fact f =
    if ltb 0 f.endpoint_id
      && ltb 0 f.resource_id
      && ltb 0 f.test_identity_id
      && all (λ i. ltb 0 i) f.supporting_assertion_ids
    then ok f
    else err invalid_access_fact

-- An item of the iterable.
pub data Item : Type 0 where
  fact : AccessFact → Item
  not_a_fact : Item

pub record Candidate : Type 0 where
  pub endpoint_id : ℕ
  pub resource_id : ℕ
  pub test_identity_id : ℕ
  pub subject_kind : SubjectKind
  pub candidate_kind : CandidateKind
  pub relationship : Relationship
  pub expected_access : ExpectedAccess
  pub supporting_assertion_ids : List ℕ

abbrev pub max_facts : ℕ
max_facts = 512

abbrev pub same_key : AccessFact → AccessFact → Bool
same_key a b =
    a.endpoint_id == b.endpoint_id
    && a.resource_id == b.resource_id
    && a.test_identity_id == b.test_identity_id

abbrev is_resolved : ResolutionState → Bool
is_resolved resolved = true
is_resolved _ = false

abbrev is_explicit : ExpectedAccess → Bool
is_explicit unspecified_access = false
is_explicit _ = true

abbrev authenticated_kind : Relationship → Option (SubjectKind × CandidateKind)
authenticated_kind owner = some (authenticated, owner_access)
authenticated_kind shared = some (authenticated, shared_access)
authenticated_kind non_owner = some (authenticated, cross_subject_access)
authenticated_kind unspecified_relationship = none

abbrev kinds : AccessFact → Option (SubjectKind × CandidateKind)
kinds f =
    if f.identity_auth_type =ₜ text "anonymous"
    then some (anonymous, anonymous_access)
    else authenticated_kind f.relationship

abbrev with_kinds : AccessFact → Option (SubjectKind × CandidateKind) → List Candidate
with_kinds f none = []
with_kinds f (some (subject, kind)) =
    record {
      endpoint_id = f.endpoint_id;
      resource_id = f.resource_id;
      test_identity_id = f.test_identity_id;
      subject_kind = subject;
      candidate_kind = kind;
      relationship = f.relationship;
      expected_access = f.expected_access;
      supporting_assertion_ids = f.supporting_assertion_ids;
    }
    ∷ []

-- What one fact adds: nothing where the loop goes on, else one candidate.
unfoldable pub candidates_of : AccessFact → List Candidate
candidates_of f =
    if is_resolved f.resolution_state && is_explicit f.expected_access
    then with_kinds f (kinds f)
    else []

-- The loop, with its index and the keys that it has seen.
unfoldable pub plan_from : ℕ → List AccessFact → List Item → Result PlanningError (List Candidate)
plan_from index seen [] = ok []
plan_from index seen (not_a_fact ∷ items) =
    if index == max_facts then err fact_limit_exceeded else err invalid_access_fact
plan_from index seen (fact f ∷ items) =
    let rest = plan_from (index + 1) (f ∷ seen) items in
    if index == max_facts
    then err fact_limit_exceeded
    else if any (same_key f) seen
    then err duplicate_access_fact
    else (rest >>= λ later. ok (candidates_of f ++ later))

unfoldable pub plan_bola_matrix : List Item → Result PlanningError (List Candidate)
unfolding plan_from
plan_bola_matrix items = plan_from 0 [] items
