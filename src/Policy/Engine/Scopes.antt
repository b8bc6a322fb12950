-- ===== src/Policy/Engine/Scopes.antt =====
-- The loop of `evaluate` over the scopes against a description of a scope that lets a request through.
use ai_api_security_platform.Prelude.{
  ◌≡◌, refl, ap, ◌∙◌, subst, inl, inr, Bool, true, false, some, List, [], ◌∷◌, Text, ◌=ₜ◌, =ₜ_eq,
  =ₜ_refl, any, In, Result, ok, err, arith, Bool-cases,
}
use ai_api_security_platform.Policy.Python.{Python}
use ai_api_security_platform.Policy.Origin.{Violation, normalize_hostname}
use ai_api_security_platform.Policy.Paths.{path_matches_scope}
use ai_api_security_platform.Policy.Engine.{
  Scope, Normalized, normalize_method, scope_allows, matching_scope, is_hostname, holds_true,
}

-- The scope is active, is for this host, lists the method up to spaces and case, and its pattern is
-- valid and matches the path.
pub record IsAllowedBy (py : Python) (n : Normalized) (scope : Scope) : Type 0 where
  pub active : scope.is_active ≡ true
  pub same_host : normalize_hostname py scope.hostname ≡ ok n.hostname
  pub listed : (m : Text) × In m scope.allowed_methods × (n.method ≡ normalize_method py m)
  pub above : path_matches_scope n.path scope.path_pattern ≡ ok true

is_hostname_sound : (o : Result Violation Text) (h : Text) → is_hostname o h ≡ true → o ≡ ok h
is_hostname_sound (ok a) h e = ap ok (=ₜ_eq a h e)
is_hostname_sound (err x) h e = cc

is_hostname_complete : (o : Result Violation Text) (h : Text) → o ≡ ok h → is_hostname o h ≡ true
is_hostname_complete o h e = rw e (=ₜ_refl h)

holds_true_sound : (o : Result Violation Bool) → holds_true o ≡ true → o ≡ ok true
holds_true_sound (ok b) e = ap ok e
holds_true_sound (err x) e = cc

module _ (py : Python) (method : Text) where
  listed_sound :
      (ms : List Text)
      → any (λ m. method =ₜ normalize_method py m) ms ≡ true
      → (m : Text) × In m ms × (method ≡ normalize_method py m)
  listed_sound [] e = cc
  listed_sound (m ∷ ms) e = elim (Bool-cases (method =ₜ normalize_method py m)) [
    | inl same ↦ (m, inl refl, =ₜ_eq method (normalize_method py m) same)
    | inr other ↦ let (k, at, same) = listed_sound ms (ground arith) in (k, inr at, same)
  ]

  listed_complete :
      (ms : List Text) (m : Text)
      → In m ms
      → method ≡ normalize_method py m
      → any (λ k. method =ₜ normalize_method py k) ms ≡ true
  listed_complete [] m at e = elim at [ ]
  listed_complete (k ∷ ms) m (inl here) e =
      let same : (method =ₜ normalize_method py k) ≡ true =
        subst (λ x. (method =ₜ x) ≡ true) (e ∙ ap (normalize_method py) here) (=ₜ_refl method) in
      ground arith
  listed_complete (k ∷ ms) m (inr at) e = ground (arith, listed_complete ms m at e)

module _ (py : Python) (n : Normalized) where
  scope_allows-IsAllowedBy :
      (scope : Scope) → scope_allows py n scope ≡ true → IsAllowedBy py n scope
  unfolding scope_allows
  scope_allows-IsAllowedBy scope h = record {
    active = ground arith;
    same_host = is_hostname_sound (normalize_hostname py scope.hostname) n.hostname (ground arith);
    listed = listed_sound py n.method scope.allowed_methods (ground arith);
    above = holds_true_sound (path_matches_scope n.path scope.path_pattern) (ground arith);
  }

  IsAllowedBy-scope_allows :
      (scope : Scope) → IsAllowedBy py n scope → scope_allows py n scope ≡ true
  unfolding scope_allows
  IsAllowedBy-scope_allows scope h =
      let (m, at, same) = h.listed in
      ground (
        arith,
        h.active,
        is_hostname_complete (normalize_hostname py scope.hostname) n.hostname h.same_host,
        listed_complete py n.method scope.allowed_methods m at same,
        h.above,
      )

-- The first scope of the list that lets the request through.
pub data IsFirst (py : Python) (n : Normalized) (scope : Scope) : List Scope → Type 0 where
  head : {rest : List Scope} → IsAllowedBy py n scope → IsFirst py n scope (scope ∷ rest)
  tail :
      {s : Scope} {rest : List Scope}
      → ¬ IsAllowedBy py n s
      → IsFirst py n scope rest
      → IsFirst py n scope (s ∷ rest)

module _ (py : Python) (n : Normalized) where
  pub IsFirst-sound :
      (scopes : List Scope) (scope : Scope)
      → matching_scope py n scopes ≡ some scope
      → IsFirst py n scope scopes
  unfolding matching_scope
  IsFirst-sound [] scope h = cc
  IsFirst-sound (s ∷ scopes) scope h = elim (Bool-cases (scope_allows py n s)) [
    | inl e ↦
        let same : s ≡ scope = ground arith in
        subst (λ x. IsFirst py n x (s ∷ scopes)) same (head (scope_allows-IsAllowedBy py n s e))
    | inr e ↦
        tail (λ a. ground (arith, IsAllowedBy-scope_allows py n s a))
          (IsFirst-sound scopes scope (ground arith))
  ]

  refused : (s : Scope) → ¬ IsAllowedBy py n s → scope_allows py n s ≡ false
  refused s never = elim (Bool-cases (scope_allows py n s)) [
    | inl e ↦ absurd (never (scope_allows-IsAllowedBy py n s e))
    | inr e ↦ e
  ]

  pub first_complete :
      (scope : Scope) {scopes : List Scope}
      → IsFirst py n scope scopes
      → matching_scope py n scopes ≡ some scope
  unfolding matching_scope
  first_complete scope (head a) = ground (arith, IsAllowedBy-scope_allows py n scope a)
  first_complete scope (tail {s = s} never rest) =
      ground (arith, refused s never, first_complete scope rest)
