-- ===== src/Policy/Engine/Methods.antt =====
-- AUTHORIZATION_METHOD_FIELDS as a relation between a method and the fields of the revision.
use ai_api_security_platform.Prelude.{
  ◌≡◌, sym, subst, true, some, Text, text, ◌=ₜ◌, =ₜ_eq, inl, inr, Bool-cases, arith,
}
use ai_api_security_platform.Policy.Engine.{AuthorizationRevision, method_allowed}

-- The method is one of the four that are supported, and the revision allows it.
pub data IsMethodOf (r : AuthorizationRevision) : Text → Type 0 where
  gets : r.allow_get ≡ true → IsMethodOf r (text "GET")
  posts : r.allow_post ≡ true → IsMethodOf r (text "POST")
  patches : r.allow_patch ≡ true → IsMethodOf r (text "PATCH")
  deletes : r.allow_delete ≡ true → IsMethodOf r (text "DELETE")

module _ (r : AuthorizationRevision) where
  named : (m word : Text) → (m =ₜ word) ≡ true → IsMethodOf r word → IsMethodOf r m
  named m word e i = subst (IsMethodOf r) (sym (=ₜ_eq m word e)) i

  pub method_allowed-IsMethodOf : (m : Text) → method_allowed r m ≡ some true → IsMethodOf r m
  unfolding method_allowed
  method_allowed-IsMethodOf m h = elim (Bool-cases (m =ₜ text "GET")) [
    | inl e ↦ named m (text "GET") e (gets (ground arith))
    | inr a ↦ elim (Bool-cases (m =ₜ text "POST")) [
      | inl e ↦ named m (text "POST") e (posts (ground arith))
      | inr b ↦ elim (Bool-cases (m =ₜ text "PATCH")) [
        | inl e ↦ named m (text "PATCH") e (patches (ground arith))
        | inr c ↦ elim (Bool-cases (m =ₜ text "DELETE")) [
          | inl e ↦ named m (text "DELETE") e (deletes (ground arith))
          | inr d ↦ absurd (ground arith)
        ]
      ]
    ]
  ]

  pub IsMethodOf-method_allowed : {m : Text} → IsMethodOf r m → method_allowed r m ≡ some true
  unfolding method_allowed
  IsMethodOf-method_allowed (gets e) = ground arith
  IsMethodOf-method_allowed (posts e) = ground arith
  IsMethodOf-method_allowed (patches e) = ground arith
  IsMethodOf-method_allowed (deletes e) = ground arith
