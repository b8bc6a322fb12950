-- ===== src/Bola/Generator/Cases.antt =====
-- The generated cases are exactly those of the matching endpoints, actors and resources.
use ai_api_security_platform.Prelude.{
  ℕ, ◌≡◌, ◌↔◌, refl, sym, ap, ◌∙◌, subst, inl, inr, true, Option, none, some, List, [], ◌∷◌, ◌++◌,
  In, In-append_left, In-append_right, In-append_cases, In-filter, filter-In, Text, =ₜ_eq, =ₜ_refl,
  ok, arith, >>=-eq-ok, ok-injective,
}
use ai_api_security_platform.Bola.Ownership.{TestIdentity, Resource}
use ai_api_security_platform.Bola.Generator.{
  Endpoint, EndpointResourceBinding, detect_resource_binding, GeneratedTestCase, owner_statuses,
  matching_resources, matching_actors, bound_cases, for_endpoint, generate_bola_test_cases,
}
use ai_api_security_platform.Bola.Generator.Coverage.{
  IsCase, for_actors_total, for_actors_sound, for_actors_complete,
}

-- The endpoint has a supported method and exactly one resource parameter; the actor is active, the
-- resource is of the parameter's type, and all are of one target.
pub record IsMatch (e : Endpoint) (a : TestIdentity) (r : Resource) : Type 0 where
  pub owners : List ℕ
  pub supported : owner_statuses e.method ≡ some owners
  pub binding : EndpointResourceBinding
  pub bound : detect_resource_binding e ≡ some binding
  pub actor_target : a.target_id ≡ e.target_id
  pub active : a.is_active ≡ true
  pub resource_target : r.target_id ≡ e.target_id
  pub typed : r.resource_type ≡ binding.resource_type

module _ (actors : List TestIdentity) (resources : List Resource) (e : Endpoint) where
  actor_matches :
      (a : TestIdentity)
      → In a (matching_actors e actors)
      → In a actors × (a.target_id ≡ e.target_id) × (a.is_active ≡ true)
  actor_matches a m = let (n, h) = filter-In _ actors a m in (n, ground arith, ground arith)

  resource_matches :
      (type : Text) (r : Resource)
      → In r (matching_resources e type resources)
      → In r resources × (r.target_id ≡ e.target_id) × (r.resource_type ≡ type)
  resource_matches type r m =
      let (n, h) = filter-In _ resources r m in
      (n, ground arith, =ₜ_eq r.resource_type type (ground arith))

  one_target :
      (type : Text) (a : TestIdentity) (r : Resource)
      → In a (matching_actors e actors)
      → In r (matching_resources e type resources)
      → a.target_id ≡ r.target_id
  one_target type a r m n = (actor_matches a m).1 ∙ sym (resource_matches type r n).1

  bound_total :
      (s : Option (List ℕ)) (b : Option EndpointResourceBinding)
      → (cs : List GeneratedTestCase) × (bound_cases e actors resources s b ≡ ok cs)
  bound_total none b = ([], refl)
  bound_total (some owners) none = ([], refl)
  bound_total (some owners) (some b) = for_actors_total e owners _ _ (one_target b.resource_type)

  bound_sound :
      (s : Option (List ℕ)) (b : Option EndpointResourceBinding) (cs : List GeneratedTestCase)
      (c : GeneratedTestCase)
      → owner_statuses e.method ≡ s
      → detect_resource_binding e ≡ b
      → bound_cases e actors resources s b ≡ ok cs
      → In c cs
      → (a : TestIdentity) × (r : Resource) × In a actors
        × In r resources
        × ((m : IsMatch e a r) × IsCase e m.owners a r c)
  bound_sound none b cs c es eb h m = absurd (subst (In c) (sym (ok-injective h)) m)
  bound_sound (some owners) none cs c es eb h m = absurd (subst (In c) (sym (ok-injective h)) m)
  bound_sound (some owners) (some b) cs c es eb h m =
      let (a, r, p, n, i) = for_actors_sound e owners _ _ cs c h m in
      let (p', ta, active) = actor_matches a p in
      let (n', tr, typed) = resource_matches b.resource_type r n in
      (
        a,
        r,
        p',
        n',
        (
          record {
            owners = owners;
            supported = es;
            binding = b;
            bound = eb;
            actor_target = ta;
            active = active;
            resource_target = tr;
            typed = typed;
          },
          i,
        ),
      )

  bound_complete :
      (s : Option (List ℕ)) (b : Option EndpointResourceBinding) (cs : List GeneratedTestCase)
      (c : GeneratedTestCase) (a : TestIdentity) (r : Resource) (m : IsMatch e a r)
      → owner_statuses e.method ≡ s
      → detect_resource_binding e ≡ b
      → bound_cases e actors resources s b ≡ ok cs
      → In a actors
      → In r resources
      → IsCase e m.owners a r c
      → In c cs
  bound_complete none b cs c a r m es eb h p n i = absurd (ground (arith, m.supported, es))
  bound_complete (some o) none cs c a r m es eb h p n i = absurd (ground (arith, m.bound, eb))
  bound_complete (some o) (some b) cs c a r m es eb h p n i =
      let same_owners : m.owners ≡ o = ground (arith, m.supported, es) in
      let same_binding : m.binding ≡ b = ground (arith, m.bound, eb) in
      let type : r.resource_type ≡ b.resource_type =
        m.typed ∙ ap (λ (x : EndpointResourceBinding). x.resource_type) same_binding in
      for_actors_complete e o _ _ cs c a r h
        (In-filter _ actors a p (ground (arith, m.actor_target, m.active)))
        (In-filter _ resources r n
          (ground (arith, m.resource_target, type, =ₜ_refl b.resource_type)))
        (subst (λ x. IsCase e x a r c) same_owners i)

-- A case of some matching endpoint, actor and resource of the input.
pub record IsGenerated (endpoints : List Endpoint) (actors : List TestIdentity)
    (resources : List Resource) (c : GeneratedTestCase) : Type 0 where
  pub endpoint : Endpoint
  pub actor : TestIdentity
  pub resource : Resource
  pub endpoint_in : In endpoint endpoints
  pub actor_in : In actor actors
  pub resource_in : In resource resources
  pub matches : IsMatch endpoint actor resource
  pub case : IsCase endpoint matches.owners actor resource c

module _ (actors : List TestIdentity) (resources : List Resource) where
  endpoint_total :
      (e : Endpoint) → (cs : List GeneratedTestCase) × (for_endpoint actors resources e ≡ ok cs)
  unfolding for_endpoint
  endpoint_total e = bound_total actors resources e _ _

  generate_total :
      (endpoints : List Endpoint)
      → (cs : List GeneratedTestCase) × (generate_bola_test_cases endpoints actors resources
          ≡ ok cs)
  unfolding generate_bola_test_cases
  generate_total [] = ([], refl)
  generate_total (e ∷ endpoints) =
      let (mine, d) = endpoint_total e in
      let (cs, k) = generate_total endpoints in (mine ++ cs, rw (d, k))

  later :
      (e : Endpoint) (endpoints : List Endpoint) (c : GeneratedTestCase)
      → IsGenerated endpoints actors resources c
      → IsGenerated (e ∷ endpoints) actors resources c
  later e endpoints c g = record {
    endpoint = g.endpoint;
    actor = g.actor;
    resource = g.resource;
    endpoint_in = inr g.endpoint_in;
    actor_in = g.actor_in;
    resource_in = g.resource_in;
    matches = g.matches;
    case = g.case;
  }

  generate_sound :
      (endpoints : List Endpoint) (cs : List GeneratedTestCase) (c : GeneratedTestCase)
      → generate_bola_test_cases endpoints actors resources ≡ ok cs
      → In c cs
      → IsGenerated endpoints actors resources c
  unfolding generate_bola_test_cases for_endpoint
  generate_sound [] cs c h m = absurd (subst (In c) (sym (ok-injective h)) m)
  generate_sound (e ∷ endpoints) cs c h m =
      let (mine, d, h') = >>=-eq-ok (for_endpoint actors resources e) _ h in
      let (rest, k, h'') = >>=-eq-ok (generate_bola_test_cases endpoints actors resources) _ h' in
      elim (In-append_cases c mine rest (subst (In c) (sym (ok-injective h'')) m)) [
        | inl here ↦
            let (a, r, p, n, (matched, i)) =
              bound_sound actors resources e _ _ mine c refl refl d here in
            record {
              endpoint = e;
              actor = a;
              resource = r;
              endpoint_in = inl refl;
              actor_in = p;
              resource_in = n;
              matches = matched;
              case = i;
            }
        | inr further ↦ later e endpoints c (generate_sound endpoints rest c k further)
      ]

  generate_complete :
      (endpoints : List Endpoint) (cs : List GeneratedTestCase) (c : GeneratedTestCase)
      (e : Endpoint) (a : TestIdentity) (r : Resource) (matched : IsMatch e a r)
      → generate_bola_test_cases endpoints actors resources ≡ ok cs
      → In e endpoints
      → In a actors
      → In r resources
      → IsCase e matched.owners a r c
      → In c cs
  unfolding generate_bola_test_cases for_endpoint
  generate_complete [] cs c e a r matched h q p n i = elim q [ ]
  generate_complete (f ∷ endpoints) cs c e a r matched h q p n i =
      let (mine, d, h') = >>=-eq-ok (for_endpoint actors resources f) _ h in
      let (rest, k, h'') = >>=-eq-ok (generate_bola_test_cases endpoints actors resources) _ h' in
      subst (In c) (ok-injective h'') (elim q [
        | inl same ↦ In-append_left c mine rest (
            bound_complete actors resources e _ _ mine c a r matched refl refl
              (subst (λ x. for_endpoint actors resources x ≡ ok mine) (sym same) d) p n i)
        | inr further ↦
            In-append_right c mine rest
              (generate_complete endpoints rest c e a r matched k further p n i)
      ])

  -- Generation never raises the ownership error, and the cases are exactly one kind of test, with its
  -- relation and statuses, for each matching endpoint, actor and resource.
  pub generate_exact :
      (endpoints : List Endpoint)
      → (cs : List GeneratedTestCase) × (generate_bola_test_cases endpoints actors resources
          ≡ ok cs)
        × ((c : GeneratedTestCase) → In c cs ↔ IsGenerated endpoints actors resources c)
  generate_exact endpoints =
      let (cs, h) = generate_total endpoints in
      (
        cs,
        h,
        λ c. (
          generate_sound endpoints cs c h,
          λ g.
              generate_complete endpoints cs c g.endpoint g.actor g.resource g.matches h
                g.endpoint_in g.actor_in g.resource_in g.case,
        ),
      )
