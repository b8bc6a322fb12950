-- ===== src/Plans/Intact.antt =====
-- The plan that `create_execution_plan` returns, and the integrity check of execution_plan_approval.py.
use ai_api_security_platform.Prelude.{
  ℕ, suc, ==_refl, ◌≡◌, ◌∙◌, refl, ap, subst, true, &&_iff, Option, none, some, List, [], ◌∷◌, map,
  length, Text, =ₜ_refl, ok, arith,
}
use ai_api_security_platform.Policy.Python.{Python}
use ai_api_security_platform.Bola.Json.{Value}
use ai_api_security_platform.Plans.Digest.{
  Library, PlanActionInput, ExecutionPlan, digest_version_v1, Content, payload,
  compute_plan_digest_v1,
}
use ai_api_security_platform.Plans.Creation
use ai_api_security_platform.Plans.Creation.{
  PlanError, wrong_action_count, research_closed, not_serializable, target_or_revision_missing,
  foreign_actor, origin_rejected, Rows, PlanInput, Snapshot, lift, found, is_research_context,
  is_research_case, canonicalize_policy_context, check_credential, check_actions, check_revision,
  number_from, snapshot_of, insert_execution_plan, create_execution_plan, max_plan_actions,
}
use ai_api_security_platform.Plans.Approval.{
  in_order, is_digest, input_of, validate_persisted_plan_integrity,
}
use ai_api_security_platform.Plans.Created.{create-IsCreated}

module _ (lib : Library) (py : Python) (rows : Rows) where
  pub number_from-in_order :
      (k : ℕ) (actions : List PlanActionInput)
      → in_order k (number_from lib py rows k actions) ≡ true
  number_from-in_order k [] = refl
  number_from-in_order k (a ∷ actions) =
      (&&_iff _ _).1 (==_refl k, number_from-in_order (suc k) actions)

  pub map-number_from :
      (k : ℕ) (actions : List PlanActionInput)
      → map input_of (number_from lib py rows k actions) ≡ actions
  map-number_from k [] = refl
  map-number_from k (a ∷ actions) = ap (λ l. a ∷ l) (map-number_from (suc k) actions)

  pub length-number_from :
      (k : ℕ) (actions : List PlanActionInput)
      → length (number_from lib py rows k actions) ≡ length actions
  length-number_from k [] = refl
  length-number_from k (a ∷ actions) = ap suc (length-number_from (suc k) actions)

  digest_spelled :
      ((b : List ℕ) → is_digest (lib.sha256 b) ≡ true)
      → (c : Content) (d : Text) → compute_plan_digest_v1 lib c ≡ some d
      → is_digest d ≡ true
  unfolding compute_plan_digest_v1
  digest_spelled spelled c d e = go (lib.dumps (payload lib c)) e
    where
      go :
          (o : Option Text)
          → elim o as (λ _. Option Text) [
            | none ↦ none
            | some canonical ↦ some (lib.sha256 (lib.utf8 canonical))
          ]
            ≡ some d
          → is_digest d ≡ true
      go none q = absurd (ground (arith, q))
      go (some canonical) q =
          let same : lib.sha256 (lib.utf8 canonical) ≡ d = cc (q) in
          subst (λ x. is_digest x ≡ true) same (spelled (lib.utf8 canonical))

  -- the row of the plan in a snapshot that was created
  abbrev pub plan_of : ℕ → PlanInput → Value → Text → ExecutionPlan
  plan_of id i context digest = record {
    id = id;
    target_id = i.target_id;
    authorization_revision_id = i.authorization_revision_id;
    actor_identity_id = i.actor_identity_id;
    credential_binding_id = i.credential_binding_id;
    digest_version = digest_version_v1;
    plan_digest = digest;
    action_count = length i.actions;
    policy_context = lib.jsonb context;
  }

  compute_plan_digest_v1-payload :
      (c c' : Content)
      → lib.dumps (payload lib c) ≡ lib.dumps (payload lib c')
      → compute_plan_digest_v1 lib c ≡ compute_plan_digest_v1 lib c'
  unfolding compute_plan_digest_v1
  compute_plan_digest_v1-payload c c' e = rw (compute_plan_digest_v1, e) refl

  snapshot-validate :
      (id : ℕ) (i : PlanInput) (context : Value) (digest : Text)
      → compute_plan_digest_v1 lib (Creation.content_of lib py rows i context) ≡ some digest
      → is_digest digest ≡ true
      → lib.dumps (payload lib (Creation.content_of lib py rows i (lib.jsonb context)))
        ≡ lib.dumps (payload lib (Creation.content_of lib py rows i context))
      → validate_persisted_plan_integrity lib (snapshot_of lib py rows id i context digest)
        ≡ ok (plan_of id i context digest)
  unfolding validate_persisted_plan_integrity
  snapshot-validate id i context digest digested spelled kept =
      rw
        (
          number_from-in_order 1 i.actions,
          spelled,
          length-number_from 1 i.actions,
          ==_refl (length i.actions),
          map-number_from 1 i.actions,
          compute_plan_digest_v1-payload (Creation.content_of lib py rows i (lib.jsonb context))
                (Creation.content_of lib py rows i context) kept
              ∙ digested,
          =ₜ_refl digest,
        )
        refl

  -- A plan that is created passes the integrity check of the approval and of the execution, if SHA-256
  -- is spelled as 64 hexadecimal digits, and the plan serializes alike with the canonical policy context
  -- and with what JSONB gives back of it: the digest that is computed again from the numbered rows is
  -- the one that is stored.
  pub create-validate :
      ((b : List ℕ) → is_digest (lib.sha256 b) ≡ true)
      → (id : ℕ) (i : PlanInput) (s : Snapshot) → create_execution_plan lib py rows id i ≡ ok s
      → ((v : Value)
          → canonicalize_policy_context lib i.policy_context ≡ ok v
          → lib.dumps (payload lib (Creation.content_of lib py rows i (lib.jsonb v)))
            ≡ lib.dumps (payload lib (Creation.content_of lib py rows i v)))
      → (plan : ExecutionPlan) × (s.plan ≡ some plan)
        × (validate_persisted_plan_integrity lib s ≡ ok plan)
  unfolding validate_persisted_plan_integrity
  create-validate spelled id i s h kept =
      let c = create-IsCreated lib py rows id i s h in
      subst
        (λ x.
          (plan : ExecutionPlan) × (x.plan ≡ some plan)
          × (validate_persisted_plan_integrity lib x ≡ ok plan))
        c.snapshot
        (
          plan_of id i c.context c.digest,
          refl,
          snapshot-validate id i c.context c.digest c.digested
              (digest_spelled spelled _ c.digest c.digested) (kept c.context c.context_checked),
        )
