-- ===== src/Plans/Safe.antt =====
-- What the checks of an action and of a credential say when they pass.
use ai_api_security_platform.Prelude.{
  ℕ, ◌==◌, ==_iff, ◌≡◌, ◌≤◌, ◌⊎◌, inl, inr, refl, ap, true, false, not, ◌&&◌, &&_iff, Option, none,
  some, List, [], ◌∷◌, any, All, length, leb, Text, text, ◌=ₜ◌, =ₜ_iff, ok, guard, >>=-eq-ok,
  guard-eq-ok, not-true, arith,
}
use ai_api_security_platform.Policy.Python.{Python}
use ai_api_security_platform.Policy.Origin.{Origin, same_origin, parse_origin}
use ai_api_security_platform.Policy.Paths.{normalize_request_path}
use ai_api_security_platform.Bola.Ownership.{TestIdentity}
use ai_api_security_platform.Plans.Secrets.{is_secret_parameter}
use ai_api_security_platform.Plans.Digest.{Library, PlanActionInput}
use ai_api_security_platform.Plans.Creation.{
  anonymous_binding, missing_binding, binding_not_active, not_get, bad_url, outside_origin,
  url_fragment, secret_in_url, foreign_resource, foreign_test_case, origin_rejected, path_rejected,
  CredentialBinding, TestCaseRow, on_target, is_resource, is_own_case, Rows, lift, has_own_resource,
  has_own_case, check_action, check_actions, is_anonymous, is_own_binding, check_credential,
}
use ai_api_security_platform.Plans.Created.{lift-eq-ok}

module _ (lib : Library) (py : Python) (rows : Rows) where
  -- An optional row of the target.
  abbrev pub IsOnTarget : {A : Type 0} → ℕ → (A → ℕ) → Option A → Type 0
  IsOnTarget {A = A} target f o = (r : A) × (o ≡ some r) × (f r ≡ target)

  abbrev pub IsOwnResource : ℕ → Option ℕ → Type 0
  IsOwnResource target none = Unit {0}
  IsOwnResource target (some id) = IsOnTarget target (λ r. r.target_id) (rows.resources id)

  -- A test case on an endpoint, a resource and an actor of the target; its resource is the action's, if
  -- the action names one.
  abbrev pub IsOwnCase : ℕ → Option ℕ → Option ℕ → Type 0
  IsOwnCase target resource none = Unit {0}
  IsOwnCase target resource (some id) =
      (case : TestCaseRow) × (rows.test_cases id ≡ some case)
      × IsOnTarget target (λ e. e.target_id) (rows.endpoints case.endpoint_id)
      × IsOnTarget target (λ r. r.target_id) (rows.resources case.resource_id)
      × IsOnTarget target (λ i. i.target_id) (rows.identities case.actor_identity_id)
      × ((resource ≡ none) ⊎ (resource ≡ some case.resource_id))

  on_target-IsOnTarget :
      {A : Type 0} (target : ℕ) (f : A → ℕ) (o : Option A)
      → on_target target f o ≡ true
      → IsOnTarget target f o
  on_target-IsOnTarget target f none e = absurd (ground (arith, e))
  on_target-IsOnTarget target f (some a) e = (a, refl, (==_iff _ _).0 e)

  has_own_resource-IsOwnResource :
      (target : ℕ) (o : Option ℕ)
      → has_own_resource lib py rows target o ≡ true
      → IsOwnResource target o
  has_own_resource-IsOwnResource target none e = tt
  has_own_resource-IsOwnResource target (some id) e =
      on_target-IsOnTarget target _ (rows.resources id) e

  same_resource :
      (o : Option ℕ) (id : ℕ) → is_resource lib py rows o id ≡ true → (o ≡ none) ⊎ (o ≡ some id)
  same_resource none id e = inl refl
  same_resource (some i) id e = inr (ap some ((==_iff i id).0 e))

  has_own_case-IsOwnCase :
      (target : ℕ) (resource : Option ℕ) (o : Option ℕ)
      → has_own_case lib py rows target resource o ≡ true
      → IsOwnCase target resource o
  has_own_case-IsOwnCase target resource none e = tt
  has_own_case-IsOwnCase target resource (some id) e = go (rows.test_cases id) refl e
    where
      go :
          (o : Option TestCaseRow)
          → rows.test_cases id ≡ o
          → is_own_case lib py rows target resource o ≡ true
          → IsOwnCase target resource (some id)
      go none q f = absurd (ground (arith, f))
      go (some case) q f =
          let (three, same) =
            (&&_iff
                (on_target target (λ e. e.target_id) (rows.endpoints case.endpoint_id)
                  && on_target target (λ r. r.target_id) (rows.resources case.resource_id)
                  && on_target target (λ i. i.target_id) (rows.identities case.actor_identity_id))
                (is_resource lib py rows resource case.resource_id)).0
              f in
          let (two, actor) =
            (&&_iff
                (on_target target (λ e. e.target_id) (rows.endpoints case.endpoint_id)
                  && on_target target (λ r. r.target_id) (rows.resources case.resource_id))
                (on_target target (λ i. i.target_id) (rows.identities case.actor_identity_id))).0
              three in
          let (endpoint, own) =
            (&&_iff (on_target target (λ e. e.target_id) (rows.endpoints case.endpoint_id))
                (on_target target (λ r. r.target_id) (rows.resources case.resource_id))).0
              two in
          (
            case,
            q,
            on_target-IsOnTarget target _ (rows.endpoints case.endpoint_id) endpoint,
            on_target-IsOnTarget target _ (rows.resources case.resource_id) own,
            on_target-IsOnTarget target _ (rows.identities case.actor_identity_id) actor,
            same_resource resource case.resource_id same,
          )

  -- An action of a plan on the target.
  pub record IsSafe (target : ℕ) (origin : Origin) (a : PlanActionInput) : Type 0 where
    pub own : Origin
    pub path : Text
    pub reads : a.method ≡ text "GET"
    pub bounded : length a.url ≤ 2048
    pub parsed : parse_origin py a.url ≡ ok own
    pub inside : same_origin own origin ≡ true
    pub normalized : normalize_request_path py a.url ≡ ok path
    pub whole : lib.fragment a.url ≡ []
    pub clean : any (is_secret_parameter lib.lower) (lib.query a.url) ≡ false
    pub own_resource : IsOwnResource target a.resource_id
    pub own_case : IsOwnCase target a.resource_id a.test_case_id

  check_action-IsSafe :
      (target : ℕ) (origin : Origin) (a : PlanActionInput)
      → check_action lib py rows target origin a ≡ ok tt
      → IsSafe target origin a
  unfolding check_action
  check_action-IsSafe target origin a h =
      let (_, reads, h1) = >>=-eq-ok (guard (a.method =ₜ text "GET") not_get) _ h in
      let (_, sized, h2) =
        >>=-eq-ok (guard (not (a.url =ₜ []) && leb (length a.url) 2048) bad_url) _ h1 in
      let (own, parsed, h3) = >>=-eq-ok (lift origin_rejected (parse_origin py a.url)) _ h2 in
      let (_, inside, h4) = >>=-eq-ok (guard (same_origin own origin) outside_origin) _ h3 in
      let (path, normalized, h5) =
        >>=-eq-ok (lift path_rejected (normalize_request_path py a.url)) _ h4 in
      let (_, whole, h6) = >>=-eq-ok (guard (lib.fragment a.url =ₜ []) url_fragment) _ h5 in
      let (_, clean, h7) =
        >>=-eq-ok
          (guard (not (any (is_secret_parameter lib.lower) (lib.query a.url))) secret_in_url) _
          h6 in
      let (_, own_resource, h8) =
        >>=-eq-ok (guard (has_own_resource lib py rows target a.resource_id) foreign_resource) _
          h7 in
      let bounds =
        (&&_iff (not (a.url =ₜ [])) (leb (length a.url) 2048)).0 (guard-eq-ok _ bad_url sized) in
      record {
        own = own;
        path = path;
        reads = (=ₜ_iff _ _).0 (guard-eq-ok _ not_get reads);
        bounded = ground (arith, bounds.1);
        parsed = lift-eq-ok origin_rejected (parse_origin py a.url) parsed;
        inside = guard-eq-ok _ outside_origin inside;
        normalized = lift-eq-ok path_rejected (normalize_request_path py a.url) normalized;
        whole = (=ₜ_iff _ _).0 (guard-eq-ok _ url_fragment whole);
        clean = not-true _ (guard-eq-ok _ secret_in_url clean);
        own_resource =
            has_own_resource-IsOwnResource target _ (guard-eq-ok _ foreign_resource own_resource);
        own_case = has_own_case-IsOwnCase target _ _ (guard-eq-ok _ foreign_test_case h8);
      }

  pub check_actions-IsSafe :
      (target : ℕ) (origin : Origin) (actions : List PlanActionInput)
      → check_actions lib py rows target origin actions ≡ ok tt
      → All (IsSafe target origin) actions
  check_actions-IsSafe target origin [] h = tt
  check_actions-IsSafe target origin (a ∷ actions) h =
      let (_, first, rest) = >>=-eq-ok (check_action lib py rows target origin a) _ h in
      (check_action-IsSafe target origin a first, check_actions-IsSafe target origin actions rest)

  -- An anonymous actor has no credential; any other has an active one of its own kind.
  abbrev pub IsCredited : ℕ → TestIdentity → Option ℕ → Type 0
  IsCredited actor_id actor none = is_anonymous lib py rows actor ≡ true
  IsCredited actor_id actor (some id) =
      (is_anonymous lib py rows actor ≡ false)
      × (b : CredentialBinding) × (rows.bindings id ≡ some b)
      × (b.test_identity_id ≡ actor_id)
      × (b.is_active ≡ true)
      × (b.auth_type ≡ actor.auth_type)

  own_binding :
      (actor_id : ℕ) (actor : TestIdentity) (o : Option CredentialBinding)
      → is_own_binding lib py rows actor_id actor o ≡ true
      → (b : CredentialBinding) × (o ≡ some b)
        × (b.test_identity_id ≡ actor_id)
        × (b.is_active ≡ true)
        × (b.auth_type ≡ actor.auth_type)
  own_binding actor_id actor none e = absurd (ground (arith, e))
  own_binding actor_id actor (some b) e =
      let (both, kind) =
        (&&_iff (b.test_identity_id == actor_id && b.is_active) (b.auth_type =ₜ actor.auth_type)).0
          e in
      let (same, active) = (&&_iff (b.test_identity_id == actor_id) b.is_active).0 both in
      (b, refl, (==_iff _ _).0 same, active, (=ₜ_iff _ _).0 kind)

  pub check_credential-IsCredited :
      (actor_id : ℕ) (actor : TestIdentity) (binding : Option ℕ)
      → check_credential lib py rows actor_id actor binding ≡ ok tt
      → IsCredited actor_id actor binding
  unfolding check_credential
  check_credential-IsCredited actor_id actor none h = guard-eq-ok _ missing_binding h
  check_credential-IsCredited actor_id actor (some id) h =
      let (_, known, own) =
        >>=-eq-ok (guard (not (is_anonymous lib py rows actor)) anonymous_binding) _ h in
      let (b, there, same, active, kind) =
        own_binding actor_id actor (rows.bindings id) (guard-eq-ok _ binding_not_active own) in
      (not-true _ (guard-eq-ok _ anonymous_binding known), b, there, same, active, kind)
