-- ===== src/Bola/Generator/Coverage.antt =====
-- The two inner loops: a case for each actor and resource of one target.
use ai_api_security_platform.Prelude.{
  ℕ, ◌≡◌, refl, sym, ap, ◌∙◌, subst, inl, inr, List, [], ◌∷◌, ◌++◌, In, In-append_left,
  In-append_right, In-append_cases, text, ◌=ₜ◌, ok, arith, if◌then◌else◌, >>=-eq-ok, ok-injective,
}
use ai_api_security_platform.Bola.Ownership.{
  TestIdentity, Resource, OwnershipRelation, owner, cross_owner, anonymous, owns,
  determine_ownership_relation,
}
use ai_api_security_platform.Bola.Generator.{
  Endpoint, GeneratedTestCase, test_case, for_resources, for_actors,
}

-- Actor and resource of one target have a relation.
related :
    (a : TestIdentity) (r : Resource)
    → a.target_id ≡ r.target_id
    → (relation : OwnershipRelation) × (determine_ownership_relation a r ≡ ok relation)
unfolding determine_ownership_relation
related a r h = (
  if a.auth_type =ₜ text "anonymous"
      then anonymous
      else if owns a.id r.owner_identity_id
      then owner
      else cross_owner,
  ground arith,
)

module _ (e : Endpoint) (owners : List ℕ) where
  -- The case of a resource and an actor, whichever relation they have.
  pub record IsCase (a : TestIdentity) (r : Resource) (c : GeneratedTestCase) : Type 0 where
    pub relation : OwnershipRelation
    pub determined : determine_ownership_relation a r ≡ ok relation
    pub case : c ≡ test_case e owners a r relation

  for_resources_total :
      (a : TestIdentity) (rs : List Resource)
      → ((r : Resource) → In r rs → a.target_id ≡ r.target_id)
      → (cs : List GeneratedTestCase) × (for_resources e owners a rs ≡ ok cs)
  unfolding for_resources
  for_resources_total a [] h = ([], refl)
  for_resources_total a (r ∷ rs) h =
      let (relation, d) = related a r (h r (inl refl)) in
      let (cs, k) = for_resources_total a rs (λ s m. h s (inr m)) in
      (test_case e owners a r relation ∷ cs, rw (d, k))

  for_resources_sound :
      (a : TestIdentity) (rs : List Resource) (cs : List GeneratedTestCase) (c : GeneratedTestCase)
      → for_resources e owners a rs ≡ ok cs
      → In c cs
      → (r : Resource) × In r rs × IsCase a r c
  unfolding for_resources
  for_resources_sound a [] cs c h m = absurd (subst (In c) (sym (ok-injective h)) m)
  for_resources_sound a (r ∷ rs) cs c h m =
      let (relation, d, h') = >>=-eq-ok (determine_ownership_relation a r) _ h in
      let (rest, k, h'') = >>=-eq-ok (for_resources e owners a rs) _ h' in
      elim (subst (In c) (sym (ok-injective h'')) m) [
        | inl same ↦ (r, inl refl, record { relation = relation; determined = d; case = same })
        | inr later ↦ let (s, n, i) = for_resources_sound a rs rest c k later in (s, inr n, i)
      ]

  for_resources_complete :
      (a : TestIdentity) (rs : List Resource) (cs : List GeneratedTestCase) (c : GeneratedTestCase)
      (r : Resource)
      → for_resources e owners a rs ≡ ok cs
      → In r rs
      → IsCase a r c
      → In c cs
  unfolding for_resources
  for_resources_complete a [] cs c r h m i = elim m [ ]
  for_resources_complete a (s ∷ rs) cs c r h m i =
      let (relation, d, h') = >>=-eq-ok (determine_ownership_relation a s) _ h in
      let (rest, k, h'') = >>=-eq-ok (for_resources e owners a rs) _ h' in
      subst (In c) (ok-injective h'') (elim m [
        | inl same ↦
            let relations : i.relation ≡ relation =
              ok-injective (sym i.determined ∙ ap (determine_ownership_relation a) same ∙ d) in
            inl (
              i.case
              ∙ ap (λ x. test_case e owners a x i.relation) same
              ∙ ap (test_case e owners a s) relations)
        | inr later ↦ inr (for_resources_complete a rs rest c r k later i)
      ])

  pub for_actors_total :
      (as' : List TestIdentity) (rs : List Resource)
      → ((a : TestIdentity) (r : Resource) → In a as' → In r rs → a.target_id ≡ r.target_id)
      → (cs : List GeneratedTestCase) × (for_actors e owners as' rs ≡ ok cs)
  unfolding for_actors
  for_actors_total [] rs h = ([], refl)
  for_actors_total (a ∷ as') rs h =
      let (mine, d) = for_resources_total a rs (λ r m. h a r (inl refl) m) in
      let (cs, k) = for_actors_total as' rs (λ b r m. h b r (inr m)) in (mine ++ cs, rw (d, k))

  pub for_actors_sound :
      (as' : List TestIdentity) (rs : List Resource) (cs : List GeneratedTestCase)
      (c : GeneratedTestCase)
      → for_actors e owners as' rs ≡ ok cs
      → In c cs
      → (a : TestIdentity) × (r : Resource) × In a as' × In r rs × IsCase a r c
  unfolding for_actors
  for_actors_sound [] rs cs c h m = absurd (subst (In c) (sym (ok-injective h)) m)
  for_actors_sound (a ∷ as') rs cs c h m =
      let (mine, d, h') = >>=-eq-ok (for_resources e owners a rs) _ h in
      let (rest, k, h'') = >>=-eq-ok (for_actors e owners as' rs) _ h' in
      elim (In-append_cases c mine rest (subst (In c) (sym (ok-injective h'')) m)) [
        | inl here ↦
            let (r, n, i) = for_resources_sound a rs mine c d here in (a, r, inl refl, n, i)
        | inr later ↦
            let (b, r, p, n, i) = for_actors_sound as' rs rest c k later in (b, r, inr p, n, i)
      ]

  pub for_actors_complete :
      (as' : List TestIdentity) (rs : List Resource) (cs : List GeneratedTestCase)
      (c : GeneratedTestCase) (a : TestIdentity) (r : Resource)
      → for_actors e owners as' rs ≡ ok cs
      → In a as'
      → In r rs
      → IsCase a r c
      → In c cs
  unfolding for_actors
  for_actors_complete [] rs cs c a r h p m i = elim p [ ]
  for_actors_complete (b ∷ as') rs cs c a r h p m i =
      let (mine, d, h') = >>=-eq-ok (for_resources e owners b rs) _ h in
      let (rest, k, h'') = >>=-eq-ok (for_actors e owners as' rs) _ h' in
      subst (In c) (ok-injective h'') (elim p [
        | inl same ↦
            In-append_left c mine rest
              (for_resources_complete b rs mine c r d m (subst (λ x. IsCase x r c) same i))
        | inr later ↦
            In-append_right c mine rest (for_actors_complete as' rs rest c a r k later m i)
      ])
