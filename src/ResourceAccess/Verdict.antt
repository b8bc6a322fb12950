-- ===== src/ResourceAccess/Verdict.antt =====
-- What the state of a resolution says of the assertions.
use ai_api_security_platform.Prelude.{
  ℕ, zero, suc, ◌==◌, ◌≤◌, ◌≡◌, ◌≢◌, refl, sym, ap, ◌∙◌, subst, inl, inr, ◌⊎◌, true, false, not,
  List, [], ◌∷◌, filter, length, leb, In, In-filter, filter-In, Text, ◌=ₜ◌, =ₜ_iff, ok, guard,
  >>=-eq-ok, guard-eq-ok, not-true, ok-injective, arith, Bool-cases,
}
use ai_api_security_platform.Policy.Engine.{Moment, naive, aware}
use ai_api_security_platform.ResourceAccess.{
  Assertion, ResolutionState, resolved, insufficient, conflict, ResourceAccessResolution,
  resource_not_found, test_identity_not_found, resource_identity_target_mismatch,
  resolution_limit_exceeded, Tables, max_assertions_scanned, is_valid_for, take, found,
  resolve_resource_access, unspecified, set_of, specified, single, has_many, state_of,
  resolution_of,
}
use ai_api_security_platform.ResourceAccess.Values.{
  Members, no_member, one_member, two_members, members, map-In, In-map,
}

module _ (rows : List Assertion) where
  -- Some assertion gives the value, which is not "unspecified".
  abbrev pub IsGiven : (Assertion → Text) → Text → Type 0
  IsGiven field v = (v ≢ unspecified) × (a : Assertion) × In a rows × (field a ≡ v)

  In-IsGiven : (field : Assertion → Text) (v : Text) → In v (specified field rows) → IsGiven field v
  In-IsGiven field v m =
      let (a, n, e) = map-In field (filter (λ a. not (field a =ₜ unspecified)) rows) v m in
      let (there, kept) = filter-In (λ a. not (field a =ₜ unspecified)) rows a n in
      let differs : (field a =ₜ unspecified) ≡ false = not-true _ kept in
      (λ q. absurd (cc (differs, (=ₜ_iff (field a) unspecified).1 (e ∙ q))), a, there, e)

  given_differs :
      (field : Assertion → Text) (a : Assertion)
      → field a ≢ unspecified
      → not (field a =ₜ unspecified) ≡ true
  given_differs field a apart = elim (Bool-cases (field a =ₜ unspecified)) [
    | inl e ↦ absurd (apart ((=ₜ_iff _ _).0 e))
    | inr e ↦ rw e refl
  ]

  IsGiven-In : (field : Assertion → Text) (v : Text) → IsGiven field v → In v (specified field rows)
  IsGiven-In field v (apart, a, m, e) =
      let kept = given_differs field a (λ q. apart (sym e ∙ q)) in
      subst (λ x. In x (specified field rows)) e
        (In-map field (filter (λ b. not (field b =ₜ unspecified)) rows) a
          (In-filter (λ b. not (field b =ₜ unspecified)) rows a m kept))

  -- Two assertions give different values.
  abbrev pub IsDisputed : (Assertion → Text) → Type 0
  IsDisputed field = (v : Text) × (w : Text) × IsGiven field v × IsGiven field w × (v ≢ w)

  abbrev pub IsSilent : (Assertion → Text) → Type 0
  IsSilent field = (v : Text) → ¬ IsGiven field v

  -- The value is the only one that is given; it is "unspecified" if none is.
  abbrev pub IsAgreed : (Assertion → Text) → Text → Type 0
  IsAgreed field v =
      (IsSilent field × (v ≡ unspecified))
      ⊎ (IsGiven field v × ((w : Text) → IsGiven field w → w ≡ v))

  -- What the set of a field's values says of the assertions.
  abbrev IsRead : (Assertion → Text) → List Text → Type 0
  IsRead field s =
      ((has_many s ≡ true) × IsDisputed field) ⊎ ((has_many s ≡ false) × IsAgreed field (single s))

  field-IsRead :
      (field : Assertion → Text) (s : List Text) → Members (specified field rows) s → IsRead field s
  field-IsRead field s (no_member none_in) =
      inr (refl, inl (λ v g. none_in v (IsGiven-In field v g), refl))
  field-IsRead field s (one_member v m all_equal) =
      inr (refl, inr (In-IsGiven field v m, λ w g. all_equal w (IsGiven-In field w g)))
  field-IsRead field s (two_members v w l m n apart) =
      inl (refl, (v, w, In-IsGiven field v m, In-IsGiven field w n, apart))

  agreed-IsSilent :
      (field : Assertion → Text) (v : Text) → IsAgreed field v → v ≡ unspecified → IsSilent field
  agreed-IsSilent field v (inl (silent, e)) q = silent
  agreed-IsSilent field v (inr (given, only)) q = absurd (given.0 q)

  -- The state, with the relationship and the access that are returned.
  abbrev pub IsMeant : ResolutionState → Text → Text → Type 0
  IsMeant conflict relationship access =
      IsDisputed (λ a. a.relationship) ⊎ IsDisputed (λ a. a.expected_access)
  IsMeant insufficient relationship access =
      IsSilent (λ a. a.relationship) × IsSilent (λ a. a.expected_access)
  IsMeant resolved relationship access =
      IsAgreed (λ a. a.relationship) relationship
      × IsAgreed (λ a. a.expected_access) access
      × ((relationship ≢ unspecified) ⊎ (access ≢ unspecified))

  state_of-IsMeant :
      (xs ys : List Text)
      → IsRead (λ a. a.relationship) xs
      → IsRead (λ a. a.expected_access) ys
      → IsMeant (state_of xs ys) (single xs) (single ys)
  unfolding state_of
  state_of-IsMeant xs ys (inl (many, d)) other = rw many (inl d)
  state_of-IsMeant xs ys (inr (few, agreed)) (inl (many, d)) = rw (few, many) (inr d)
  state_of-IsMeant xs ys (inr (few, agreed)) (inr (few', agreed')) =
      elim (Bool-cases (single xs =ₜ unspecified)) [
        | inl e ↦ elim (Bool-cases (single ys =ₜ unspecified)) [
          | inl f ↦
              rw (few, few', e, f)
                (
                  agreed-IsSilent _ _ agreed ((=ₜ_iff _ _).0 e),
                  agreed-IsSilent _ _ agreed' ((=ₜ_iff _ _).0 f),
                )
          | inr f ↦
              rw (few, few', e, f) (agreed, agreed', inr (λ q. absurd (cc (f, (=ₜ_iff _ _).1 q))))
        ]
        | inr e ↦ rw (few, few', e) (agreed, agreed', inl (λ q. absurd (cc (e, (=ₜ_iff _ _).1 q))))
      ]

  resolution-IsMeant :
      (resource identity now : ℕ)
      → IsMeant
          (resolution_of resource identity now rows).state
          (resolution_of resource identity now rows).relationship
          (resolution_of resource identity now rows).expected_access
  unfolding resolution_of
  resolution-IsMeant resource identity now =
      state_of-IsMeant (set_of (specified (λ a. a.relationship) rows))
        (set_of (specified (λ a. a.expected_access) rows))
        (field-IsRead (λ a. a.relationship) _ (members (specified (λ a. a.relationship) rows)))
        (field-IsRead (λ a. a.expected_access) _
          (members (specified (λ a. a.expected_access) rows)))

take_all :
    (n : ℕ) (rows : List Assertion) → length (take (suc n) rows) ≤ n → take (suc n) rows ≡ rows
take_all n [] le = refl
take_all zero (a ∷ rows) le = absurd (omega (arith, le))
take_all (suc n) (a ∷ rows) le = ap (λ l. a ∷ l) (take_all n rows (omega (arith, le)))

le_of_leb : (m n : ℕ) → leb m n ≡ true → m ≤ n
le_of_leb m n e = ground (arith, e)

-- A resolution that is returned takes in every assertion of the identity on the resource that is
-- verified and valid at the time. Its state is conflict only if two of them
-- give different relationships or different accesses; insufficient only if none gives either; and
-- resolved only if the relationship and the access that are returned are the only ones that are given,
-- and at least one of the two is.
pub resolve-IsMeant :
    (tables : Tables) (resource identity : ℕ) (time : Moment) (r : ResourceAccessResolution)
    → resolve_resource_access tables resource identity time ≡ ok r
    → (now : ℕ) × (time ≡ aware now)
      × IsMeant
          (filter (is_valid_for resource identity now) tables.assertions)
          r.state
          r.relationship
          r.expected_access
unfolding resolve_resource_access
resolve-IsMeant tables resource identity naive r h = absurd (ground (arith, h))
resolve-IsMeant tables resource identity (aware now) r h =
    let rows = filter (is_valid_for resource identity now) tables.assertions in
    let (a, _, h1) = >>=-eq-ok (found (tables.resources resource) resource_not_found) _ h in
    let (b, _, h2) = >>=-eq-ok (found (tables.identities identity) test_identity_not_found) _ h1 in
    let (_, _, h3) =
      >>=-eq-ok (guard (a.target_id == b.target_id) resource_identity_target_mismatch) _ h2 in
    let (_, few, h4) =
      >>=-eq-ok
        (guard (leb (length (take (suc max_assertions_scanned) rows)) max_assertions_scanned)
          resolution_limit_exceeded)
        _ h3 in
    let all_rows : take (suc max_assertions_scanned) rows ≡ rows =
      take_all max_assertions_scanned rows
        (le_of_leb _ max_assertions_scanned (guard-eq-ok _ resolution_limit_exceeded few)) in
    let returned : resolution_of resource identity now rows ≡ r =
      ap (resolution_of resource identity now) (sym all_rows) ∙ ok-injective h4 in
    (
      now,
      refl,
      subst (λ x. IsMeant rows x.state x.relationship x.expected_access) returned
          (resolution-IsMeant rows resource identity now),
    )
