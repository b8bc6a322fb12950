-- ===== src/Policy/Engine.antt =====
-- ScopePolicyEngine of backend/app/policies/scope_policy.py.
pub mod Methods
pub mod Scopes
pub mod Safety
pub mod Decisions
use ai_api_security_platform.Prelude.{
  ℕ, ◌==◌, ltb, leb, ◌≡◌, Bool, true, false, not, ◌&&◌, ◌||◌, Option, none, some, List, [], ◌∷◌,
  Text, text, ◌=ₜ◌, strip, is_space, any, Result, ok, err, ◌>>=◌, ◌>>◌, guard, if◌then◌else◌,
}
use ai_api_security_platform.Policy.Python.{Python}
use ai_api_security_platform.Policy.Origin.{
  Violation, Origin, same_origin, normalize_hostname, parse_origin,
}
use ai_api_security_platform.Policy.Paths.{
  PathError, rejected, uncaught_value_error, normalize_request_path, path_matches_scope,
}

-- The fields that `evaluate` reads of the rows of targets, authorization_revisions and scopes.
pub record Target : Type 0 where
  pub is_enabled : Bool
  pub base_url : Text
  pub authorization_revision_id : Option ℕ
  pub authorization_profile_id : Option ℕ

pub record AuthorizationRevision : Type 0 where
  pub id : ℕ
  pub authorization_profile_id : ℕ
  pub lifecycle_state : Text
  pub valid_from : Option ℕ
  pub valid_until : Option ℕ
  pub automation_allowed : Bool
  pub allow_get : Bool
  pub allow_post : Bool
  pub allow_patch : Bool
  pub allow_delete : Bool

pub record Scope : Type 0 where
  pub id : ℕ
  pub is_active : Bool
  pub hostname : Text
  pub allowed_methods : List Text
  pub path_pattern : Text

pub data Code : Type 0 where
  target_disabled authorization_revision_missing authorization_revision_mismatch : Code
  authorization_revision_profile_mismatch authorization_revision_inactive : Code
  authorization_not_yet_valid authorization_expired automation_not_allowed : Code
  invalid_request_url host_not_in_platform_allowlist invalid_target_url target_origin_mismatch :
      Code
  unsupported_http_method authorization_method_not_allowed unsafe_request_path : Code
  allowed_by_scope no_matching_scope : Code

pub record PolicyDecision : Type 0 where
  pub allowed : Bool
  pub code : Code
  pub authorization_profile_id : Option ℕ
  pub authorization_revision_id : Option ℕ
  pub evaluated_at : ℕ
  pub matched_scope_id : Option ℕ

-- A datetime: microseconds of UTC, or no time zone.
pub data Moment : Type 0 where
  aware : ℕ → Moment
  naive : Moment

pub record Request : Type 0 where
  pub url : Text
  pub method : Text

-- A step of the evaluation ends with a denial or with an exception that nothing catches.
pub data Stop : Type 0 where
  denied : Code → Stop
  value_error : Stop

abbrev bound_to : AuthorizationRevision → Option ℕ → Bool
bound_to r none = true
bound_to r (some profile) = r.authorization_profile_id == profile

abbrev has_begun : Option ℕ → ℕ → Bool
has_begun none now = true
has_begun (some from) now = leb from now

abbrev has_ended : Option ℕ → ℕ → Bool
has_ended none now = false
has_ended (some until) now = leb until now

check_revision : Option ℕ → AuthorizationRevision → ℕ → ℕ → Result Stop AuthorizationRevision
check_revision profile r bound now = do
  guard (r.id == bound) (denied authorization_revision_mismatch)
  guard (bound_to r profile) (denied authorization_revision_profile_mismatch)
  guard (r.lifecycle_state =ₜ text "active") (denied authorization_revision_inactive)
  guard (has_begun r.valid_from now) (denied authorization_not_yet_valid)
  guard (not (has_ended r.valid_until now)) (denied authorization_expired)
  guard r.automation_allowed (denied automation_not_allowed)
  ok r

abbrev given {ℓ} : {A : Type ℓ} → Option A → Code → Result Stop A
given none code = err (denied code)
given (some a) code = ok a

-- The checks of `evaluate` before it looks at the request.
unfoldable pub check_authorization :
    Target → Option AuthorizationRevision → ℕ → Result Stop AuthorizationRevision
unfolding check_revision
check_authorization target revision now = do
  guard target.is_enabled (denied target_disabled)
  bound ← given target.authorization_revision_id authorization_revision_missing
  r ← given revision authorization_revision_missing
  check_revision target.authorization_profile_id r bound now

-- AUTHORIZATION_METHOD_FIELDS; none for a method outside MVP_HTTP_METHODS
unfoldable pub method_allowed : AuthorizationRevision → Text → Option Bool
method_allowed r m =
    if m =ₜ text "GET"
    then some r.allow_get
    else if m =ₜ text "POST"
    then some r.allow_post
    else if m =ₜ text "PATCH"
    then some r.allow_patch
    else if m =ₜ text "DELETE"
    then some r.allow_delete
    else none

-- `try: parse_origin(...) except PolicyValidationError`
abbrev or_denied {ℓ} : {A : Type ℓ} → Result Violation A → Code → Result Stop A
or_denied (ok a) code = ok a
or_denied (err _) code = err (denied code)

abbrev or_unsafe : Result PathError Text → Result Stop Text
or_unsafe (ok p) = ok p
or_unsafe (err (rejected _)) = err (denied unsafe_request_path)
or_unsafe (err uncaught_value_error) = err value_error

abbrev pub holds_true : Result Violation Bool → Bool
holds_true (ok b) = b
holds_true (err _) = false

abbrev pub is_hostname : Result Violation Text → Text → Bool
is_hostname (ok h) hostname = h =ₜ hostname
is_hostname (err _) hostname = false

abbrev decide_scope : Option Scope → Result Stop Scope
decide_scope none = err (denied no_matching_scope)
decide_scope (some scope) = ok scope

abbrev profile_of : Option AuthorizationRevision → Option ℕ
profile_of none = none
profile_of (some r) = some r.authorization_profile_id

abbrev revision_id_of : Option AuthorizationRevision → Option ℕ
revision_id_of none = none
revision_id_of (some r) = some r.id

abbrev pub allowed_decision : Option AuthorizationRevision → ℕ → Scope → PolicyDecision
allowed_decision revision now scope = record {
  allowed = true;
  code = allowed_by_scope;
  authorization_profile_id = profile_of revision;
  authorization_revision_id = revision_id_of revision;
  evaluated_at = now;
  matched_scope_id = some scope.id;
}

-- none: a ValueError
abbrev pub decision : Option AuthorizationRevision → ℕ → Result Stop Scope → Option PolicyDecision
decision revision now (ok scope) = some (allowed_decision revision now scope)
decision revision now (err (denied code)) = some (record {
  allowed = false;
  code = code;
  authorization_profile_id = profile_of revision;
  authorization_revision_id = revision_id_of revision;
  evaluated_at = now;
  matched_scope_id = none;
})
decision revision now (err value_error) = none

-- What the loop over the scopes compares with.
pub record Normalized : Type 0 where
  pub hostname : Text
  pub method : Text
  pub path : Text

module _ (py : Python) where
  unfoldable pub normalize_method : Text → Text
  normalize_method m = py.upper (strip is_space m)

  -- `self.platform_allowed_hosts`, as `__init__` builds it; it raises for an empty hostname.
  unfoldable pub allowed_hosts : List Text → Result Violation (List Text)
  allowed_hosts [] = ok []
  allowed_hosts (h ∷ hs) = do
    host ← normalize_hostname py h
    rest ← allowed_hosts hs
    ok (host ∷ rest)

  check_methods : AuthorizationRevision → Text → Result Stop (Unit {0})
  unfolding method_allowed
  check_methods r method = do
    listed ← given (method_allowed r method) unsupported_http_method
    guard listed (denied authorization_method_not_allowed)

  -- The checks of `evaluate` on the request, up to the loop over the scopes.
  unfoldable pub check_request :
      List Text → Target → AuthorizationRevision → Request → Result Stop Normalized
  unfolding check_methods normalize_method
  check_request hosts target r request = do
    origin ← or_denied (parse_origin py request.url) invalid_request_url
    guard (any (λ h. origin.hostname =ₜ h) hosts) (denied host_not_in_platform_allowlist)
    target_origin ← or_denied (parse_origin py target.base_url) invalid_target_url
    guard (same_origin origin target_origin) (denied target_origin_mismatch)
    check_methods r (normalize_method request.method)
    path ← or_unsafe (normalize_request_path py request.url)
    ok (record {
      hostname = origin.hostname;
      method = normalize_method request.method;
      path = path;
    })

  -- One round of the loop: every `continue` is a false part.
  unfoldable pub scope_allows : Normalized → Scope → Bool
  unfolding normalize_method
  scope_allows n scope =
      scope.is_active
      && is_hostname (normalize_hostname py scope.hostname) n.hostname
      && any (λ m. n.method =ₜ normalize_method m) scope.allowed_methods
      && holds_true (path_matches_scope n.path scope.path_pattern)

  unfoldable pub matching_scope : Normalized → List Scope → Option Scope
  matching_scope n [] = none
  matching_scope n (scope ∷ scopes) =
      let rest = matching_scope n scopes in if scope_allows n scope then some scope else rest

  -- The whole chain of checks.
  unfoldable pub permitted :
      List Text
      → Target
      → Option AuthorizationRevision
      → List Scope
      → Request
      → ℕ
      → Result Stop Scope
  permitted hosts target revision scopes request now = do
    r ← check_authorization target revision now
    n ← check_request hosts target r request
    decide_scope (matching_scope n scopes)

  -- `evaluate`, with the time that is given or a reading of the clock.
  unfoldable pub evaluate :
      List Text
      → Target
      → Option AuthorizationRevision
      → List Scope
      → Request
      → Moment
      → Option PolicyDecision
  unfolding permitted
  evaluate hosts target revision scopes request naive = none
  evaluate hosts target revision scopes request (aware now) =
      decision revision now (permitted hosts target revision scopes request now)
