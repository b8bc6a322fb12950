-- ===== src/Policy/Engine/Safety.antt =====
-- The decisions of `evaluate` against an independent description of a permitted request.
use ai_api_security_platform.Prelude.{
  ℕ, ◌≡◌, refl, sym, subst, ◌≤◌, ◌<◌, inl, inr, true, false, Option, none, some, List, [], ◌∷◌,
  Text, text, ◌=ₜ◌, =ₜ_eq, =ₜ_refl, any, In, Result, ok, err, arith, Bool-cases,
}
use ai_api_security_platform.Policy.Engine.Methods.{
  IsMethodOf, method_allowed-IsMethodOf, IsMethodOf-method_allowed,
}
use ai_api_security_platform.Policy.Engine.Scopes.{IsFirst}
use ai_api_security_platform.Policy.Python.{Python}
use ai_api_security_platform.Policy.Origin.{Violation, Origin, same_origin, parse_origin}
use ai_api_security_platform.Policy.Paths.{PathError, normalize_request_path}
use ai_api_security_platform.Policy.Engine.{
  Target, AuthorizationRevision, Scope, Request, Normalized, bound_to, has_begun, has_ended,
  check_authorization, check_request, normalize_method,
}

-- The authorization revision is the one that the target is bound to, and is in force.
pub record IsAuthorized (target : Target) (r : AuthorizationRevision) (now : ℕ) : Type 0 where
  pub enabled : target.is_enabled ≡ true
  pub bound : target.authorization_revision_id ≡ some r.id
  pub same_profile :
      (p : ℕ) → target.authorization_profile_id ≡ some p → r.authorization_profile_id ≡ p
  pub active : r.lifecycle_state ≡ text "active"
  pub begun : (from : ℕ) → r.valid_from ≡ some from → from ≤ now
  pub not_over : (until : ℕ) → r.valid_until ≡ some until → now < until
  pub automated : r.automation_allowed ≡ true

module _ (r : AuthorizationRevision) (now : ℕ) where
  bound_to_of :
      (o : Option ℕ) → ((p : ℕ) → o ≡ some p → r.authorization_profile_id ≡ p) → bound_to r o ≡ true
  bound_to_of none h = refl
  bound_to_of (some p) h = ground (arith, h p refl)

  has_begun_of : (o : Option ℕ) → ((t : ℕ) → o ≡ some t → t ≤ now) → has_begun o now ≡ true
  has_begun_of none h = refl
  has_begun_of (some t) h = ground (arith, h t refl)

  has_ended_of : (o : Option ℕ) → ((t : ℕ) → o ≡ some t → now < t) → has_ended o now ≡ false
  has_ended_of none h = refl
  has_ended_of (some t) h = ground (arith, h t refl)

module _ (target : Target) (now : ℕ) where
  pub IsAuthorized-sound :
      (revision : Option AuthorizationRevision) (r : AuthorizationRevision)
      → check_authorization target revision now ≡ ok r
      → (revision ≡ some r) × IsAuthorized target r now
  unfolding check_authorization
  IsAuthorized-sound revision r h = (
    ground arith,
    record {
      enabled = ground arith;
      bound = ground arith;
      same_profile = λ p e. ground arith;
      active = =ₜ_eq r.lifecycle_state (text "active") (ground arith);
      begun = λ from e. ground arith;
      not_over = λ until e. ground arith;
      automated = ground arith;
    },
  )

  pub authorized_complete :
      (r : AuthorizationRevision)
      → IsAuthorized target r now
      → check_authorization target (some r) now ≡ ok r
  unfolding check_authorization
  authorized_complete r h = ground (
    arith,
    bound_to_of r now target.authorization_profile_id h.same_profile,
    has_begun_of r now r.valid_from h.begun,
    has_ended_of r now r.valid_until h.not_over,
    subst (λ s. (s =ₜ text "active") ≡ true) (sym h.active) refl,
  )

-- The request goes to an allowed host and to the target's own origin, by a method that the revision
-- allows, on a path that is not ambiguous.
pub record IsRequestable (py : Python) (hosts : List Text) (target : Target)
    (r : AuthorizationRevision) (request : Request) (n : Normalized) : Type 0 where
  pub origin : Origin
  pub parsed : parse_origin py request.url ≡ ok origin
  pub at_target : parse_origin py target.base_url ≡ ok origin
  pub listed : In origin.hostname hosts
  pub method : IsMethodOf r (normalize_method py request.method)
  pub path : normalize_request_path py request.url ≡ ok n.path
  pub same_hostname : n.hostname ≡ origin.hostname
  pub same_method : n.method ≡ normalize_method py request.method

any_sound : (h : Text) (hosts : List Text) → any (λ x. h =ₜ x) hosts ≡ true → In h hosts
any_sound h [] e = cc
any_sound h (x ∷ hosts) e = elim (Bool-cases (h =ₜ x)) [
  | inl same ↦ inl (=ₜ_eq h x same)
  | inr other ↦ inr (any_sound h hosts (ground arith))
]

any_complete : (h : Text) (hosts : List Text) → In h hosts → any (λ x. h =ₜ x) hosts ≡ true
any_complete h [] m = elim m [ ]
any_complete h (x ∷ hosts) (inl e) = rw (← e) (ground (arith, =ₜ_refl h))
any_complete h (x ∷ hosts) (inr m) = ground (arith, any_complete h hosts m)

same_origin_sound : (a b : Origin) → same_origin a b ≡ true → a ≡ b
same_origin_sound a b e =
    ground
      (arith, =ₜ_eq a.scheme b.scheme (ground arith), =ₜ_eq a.hostname b.hostname (ground arith))

same_origin_refl : (a : Origin) → same_origin a a ≡ true
same_origin_refl a = ground (arith, =ₜ_refl a.scheme, =ₜ_refl a.hostname)

module _ (py : Python) (hosts : List Text) (target : Target) (r : AuthorizationRevision)
    (request : Request) where
  IsRequestable-from :
      (n : Normalized) (a b : Result Violation Origin) (p : Result PathError Text)
      → parse_origin py request.url ≡ a
      → parse_origin py target.base_url ≡ b
      → normalize_request_path py request.url ≡ p
      → check_request py hosts target r request ≡ ok n
      → IsRequestable py hosts target r request n
  unfolding check_request
  IsRequestable-from n (err x) b p ea eb ep h = absurd (ground arith)
  IsRequestable-from n (ok a) (err x) p ea eb ep h = absurd (ground arith)
  IsRequestable-from n (ok a) (ok b) (err x) ea eb ep h = absurd (ground arith)
  IsRequestable-from n (ok a) (ok b) (ok p) ea eb ep h =
      let same = same_origin_sound a b (ground arith) in
      record {
        origin = a;
        parsed = ea;
        at_target = rw same eb;
        listed = any_sound a.hostname hosts (ground arith);
        method = method_allowed-IsMethodOf r (normalize_method py request.method) (ground arith);
        path = ground arith;
        same_hostname = ground arith;
        same_method = ground arith;
      }

  pub IsRequestable-sound :
      (n : Normalized)
      → check_request py hosts target r request ≡ ok n
      → IsRequestable py hosts target r request n
  IsRequestable-sound n h = IsRequestable-from n _ _ _ refl refl refl h

  pub requestable_complete :
      (n : Normalized)
      → IsRequestable py hosts target r request n
      → check_request py hosts target r request ≡ ok n
  unfolding check_request
  requestable_complete n h = ground (
    arith,
    any_complete h.origin.hostname hosts h.listed,
    same_origin_refl h.origin,
    IsMethodOf-method_allowed r h.method,
  )

-- The grounds of a permission.
pub record IsPermitted (py : Python) (hosts : List Text) (target : Target)
    (revision : Option AuthorizationRevision) (scopes : List Scope) (request : Request) (now : ℕ)
    (scope : Scope) : Type 0 where
  pub r : AuthorizationRevision
  pub n : Normalized
  pub provided : revision ≡ some r
  pub authorized : IsAuthorized target r now
  pub requestable : IsRequestable py hosts target r request n
  pub first : IsFirst py n scope scopes
