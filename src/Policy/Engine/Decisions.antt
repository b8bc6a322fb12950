-- ===== src/Policy/Engine/Decisions.antt =====
-- `evaluate` decides every request, and permits exactly those that meet every condition.
use ai_api_security_platform.Prelude.{
  ℕ, ◌≡◌, ◌≢◌, refl, inl, inr, true, Option, none, some, List, Text, Result, ok, err, arith,
  >>=-eq-ok, >>=-eq-err,
}
use ai_api_security_platform.Policy.Python.{Python}
use ai_api_security_platform.Policy.Origin.{invalid_url, parse_origin}
use ai_api_security_platform.Policy.Paths.{uncaught_value_error, normalize_request_path}
use ai_api_security_platform.Policy.Engine.{
  Target, AuthorizationRevision, Scope, PolicyDecision, aware, Request, Stop, denied, value_error,
  check_authorization, check_request, permitted, evaluate, allowed_by_scope, decision,
  allowed_decision,
}
use ai_api_security_platform.Policy.Engine.Safety.{
  IsPermitted, IsAuthorized-sound, authorized_complete, IsRequestable-sound, requestable_complete,
}
use ai_api_security_platform.Policy.Engine.Scopes.{IsFirst-sound, first_complete}

module _ (py : Python) where
  unsplit_path :
      (url : Text)
      → normalize_request_path py url ≡ err uncaught_value_error
      → py.urlsplit url ≡ none
  unfolding normalize_request_path
  unsplit_path url h = ground arith

  unsplit_origin : (url : Text) → py.urlsplit url ≡ none → parse_origin py url ≡ err invalid_url
  unfolding parse_origin
  unsplit_origin url e = ground arith

module _ (py : Python) (hosts : List Text) (target : Target)
    (revision : Option AuthorizationRevision) (scopes : List Scope) (request : Request)
    (now : ℕ) where
  permitted_sound :
      (scope : Scope)
      → permitted py hosts target revision scopes request now ≡ ok scope
      → IsPermitted py hosts target revision scopes request now scope
  unfolding permitted
  permitted_sound scope h =
      let (r, authorized, h') = >>=-eq-ok (check_authorization target revision now) _ h in
      let (n, requestable, h'') = >>=-eq-ok (check_request py hosts target r request) _ h' in
      let a = IsAuthorized-sound target now revision r authorized in
      record {
        r = r;
        n = n;
        provided = a.0;
        authorized = a.1;
        requestable = IsRequestable-sound py hosts target r request n requestable;
        first = IsFirst-sound py n scopes scope (ground arith);
      }

  permitted_complete :
      (scope : Scope)
      → IsPermitted py hosts target revision scopes request now scope
      → permitted py hosts target revision scopes request now ≡ ok scope
  unfolding permitted
  permitted_complete scope h = rw h.provided (
      rw (authorized_complete target now h.r h.authorized) (
        rw (requestable_complete py hosts target h.r request h.n h.requestable)
          (rw (first_complete py h.n scope h.first))))

  -- A request that is allowed meets every condition: the target is enabled and bound to a revision
  -- that is active and in its time window, the request is for the target's own origin on an allowed
  -- host, by an allowed method, and the scope that is named is the first one that matches it.
  pub evaluate_sound :
      (d : PolicyDecision)
      → evaluate py hosts target revision scopes request (aware now) ≡ some d
      → d.allowed ≡ true
      → (scope : Scope) × IsPermitted py hosts target revision scopes request now scope
        × (d.matched_scope_id ≡ some scope.id)
        × (d.authorization_revision_id ≡ target.authorization_revision_id)
  unfolding evaluate
  evaluate_sound d h allowed = go (permitted py hosts target revision scopes request now) refl h
    where
      go :
          (o : Result Stop Scope)
          → permitted py hosts target revision scopes request now ≡ o
          → decision revision now o ≡ some d
          → (scope : Scope) × IsPermitted py hosts target revision scopes request now scope
            × (d.matched_scope_id ≡ some scope.id)
            × (d.authorization_revision_id ≡ target.authorization_revision_id)
      go (err (denied c)) e k = absurd (ground arith)
      go (err value_error) e k = absurd (ground arith)
      go (ok scope) e k =
          let p = permitted_sound scope e in
          let b = p.authorized.bound in (scope, p, ground arith, ground (arith, p.provided, b))

  -- Conversely every request that meets the conditions is allowed, under that scope.
  pub evaluate_complete :
      (scope : Scope)
      → IsPermitted py hosts target revision scopes request now scope
      → (d : PolicyDecision) × (evaluate py hosts target revision scopes request (aware now)
          ≡ some d)
        × (d.allowed ≡ true)
        × (d.code ≡ allowed_by_scope)
        × (d.matched_scope_id ≡ some scope.id)
  unfolding evaluate
  evaluate_complete scope p =
      (allowed_decision revision now scope, rw (permitted_complete scope p), refl, refl, refl)

  no_value_error_authorization : check_authorization target revision now ≢ err value_error
  unfolding check_authorization
  no_value_error_authorization h = ground arith

  no_value_error_request :
      (r : AuthorizationRevision) → check_request py hosts target r request ≢ err value_error
  unfolding check_request
  no_value_error_request r h =
      ground (arith, unsplit_path py request.url, unsplit_origin py request.url)

  no_escape : permitted py hosts target revision scopes request now ≢ err value_error
  unfolding permitted
  no_escape h = elim (>>=-eq-err (check_authorization target revision now) _ h) [
    | inl e ↦ no_value_error_authorization e
    | inr (r, _, h') ↦ elim (>>=-eq-err (check_request py hosts target r request) _ h') [
      | inl e ↦ no_value_error_request r e
      | inr (n, _, h'') ↦ ground (arith, h'')
    ]
  ]

  -- At a time with a time zone every request gets a decision, made at that time: no error escapes.
  pub evaluate_decides :
      (d : PolicyDecision) × (evaluate py hosts target revision scopes request (aware now) ≡ some d)
      × (d.evaluated_at ≡ now)
  unfolding evaluate
  evaluate_decides = go (permitted py hosts target revision scopes request now) refl
    where
      go :
          (o : Result Stop Scope)
          → permitted py hosts target revision scopes request now ≡ o
          → (d : PolicyDecision) × (decision revision now o ≡ some d) × (d.evaluated_at ≡ now)
      go (ok scope) e = (_, refl, refl)
      go (err (denied c)) e = (_, refl, refl)
      go (err value_error) e = absurd (no_escape e)
