-- ===== src/Plans/Admissible.antt =====
-- What holds of a plan that `create_execution_plan` accepts.
use ai_api_security_platform.Prelude.{
  ℕ, suc, ==_iff, ◌≡◌, ◌≤◌, map, refl, sym, ap, subst, true, &&_iff, Option, none, some, List, [],
  ◌∷◌, All, length, leb, text, ◌=ₜ◌, =ₜ_iff, ok, guard, >>=-eq-ok, guard-eq-ok, arith,
}
use ai_api_security_platform.Policy.Python.{Python}
use ai_api_security_platform.Policy.Origin.{Origin, parse_origin}
use ai_api_security_platform.Policy.Engine.{Target, AuthorizationRevision}
use ai_api_security_platform.Bola.Ownership.{TestIdentity}
use ai_api_security_platform.Plans.Digest.{Library, PlanActionInput, ExecutionPlan}
use ai_api_security_platform.Plans.Creation.{
  revision_not_bound, revision_not_active, number_from, snapshot_of, Rows, PlanInput, Snapshot,
  is_id, check_revision, create_execution_plan,
}
use ai_api_security_platform.Plans.Created.{IsCreated, create-IsCreated}
use ai_api_security_platform.Plans.Approval.{input_of, in_order}
use ai_api_security_platform.Plans.Intact.{
  number_from-in_order, map-number_from, length-number_from, plan_of,
}
use ai_api_security_platform.Plans.Safe.{
  IsSafe, check_actions-IsSafe, IsCredited, check_credential-IsCredited,
}

is_id_eq : (o : Option ℕ) (id : ℕ) → is_id o id ≡ true → o ≡ some id
is_id_eq none id e = absurd (ground (arith, e))
is_id_eq (some j) id e = ap some ((==_iff j id).0 e)

module _ (lib : Library) (py : Python) (rows : Rows) where
  -- The rows of a plan: it stands on the active revision of its target, its actor belongs to the target
  -- and is credited, and its actions are numbered from 1 and safe.
  pub record IsAdmissible (s : Snapshot) : Type 0 where
    pub plan : ExecutionPlan
    pub target : Target
    pub revision : AuthorizationRevision
    pub actor : TestIdentity
    pub origin : Origin
    pub stored : s.plan ≡ some plan
    pub some_action : 1 ≤ length s.actions
    pub bounded : length s.actions ≤ 100
    pub counted : plan.action_count ≡ length s.actions
    pub numbered : in_order 1 s.actions ≡ true
    pub target_found : rows.targets plan.target_id ≡ some target
    pub revision_found : rows.revisions plan.authorization_revision_id ≡ some revision
    pub bound : target.authorization_revision_id ≡ some plan.authorization_revision_id
    pub same_profile : target.authorization_profile_id ≡ some revision.authorization_profile_id
    pub active : revision.lifecycle_state ≡ text "active"
    pub actor_found : rows.identities plan.actor_identity_id ≡ some actor
    pub own_actor : actor.target_id ≡ plan.target_id
    pub credited : IsCredited lib py rows plan.actor_identity_id actor plan.credential_binding_id
    pub origin_parsed : parse_origin py target.base_url ≡ ok origin
    pub safe : All (λ a. IsSafe lib py rows plan.target_id origin (input_of a)) s.actions

  -- The numbered rows of safe actions are safe.
  number_from-IsSafe :
      (target : ℕ) (origin : Origin) (k : ℕ) (actions : List PlanActionInput)
      → All (IsSafe lib py rows target origin) actions
      → All (λ a. IsSafe lib py rows target origin (input_of a)) (number_from lib py rows k actions)
  number_from-IsSafe target origin k [] h = tt
  number_from-IsSafe target origin k (a ∷ actions) h =
      (h.0, number_from-IsSafe target origin (suc k) actions h.1)

  revision_rules :
      (target : Target) (revision : AuthorizationRevision) (id : ℕ)
      → check_revision lib py rows target revision id ≡ ok tt
      → (target.authorization_revision_id ≡ some id)
        × (target.authorization_profile_id ≡ some revision.authorization_profile_id)
        × (revision.lifecycle_state ≡ text "active")
  unfolding check_revision
  revision_rules target revision id h =
      let (_, bound, h1) =
        >>=-eq-ok (guard (is_id target.authorization_revision_id id) revision_not_bound) _ h in
      let (same, active) =
        (&&_iff (is_id target.authorization_profile_id revision.authorization_profile_id)
            (revision.lifecycle_state =ₜ text "active")).0
          (guard-eq-ok _ revision_not_active h1) in
      (
        is_id_eq _ id (guard-eq-ok _ revision_not_bound bound),
        is_id_eq _ _ same,
        (=ₜ_iff _ _).0 active,
      )

  snapshot-IsAdmissible :
      (id : ℕ) (i : PlanInput) (s : Snapshot)
      → (c : IsCreated lib py rows id i s)
      → IsAdmissible (snapshot_of lib py rows id i c.context c.digest)
  snapshot-IsAdmissible id i s c =
      let (least, most) =
        (&&_iff (leb 1 (length i.actions)) (leb (length i.actions) 100)).0 c.counted in
      let (bound, same_profile, active) =
        revision_rules c.target c.revision i.authorization_revision_id c.revision_checked in
      let same = length-number_from lib py rows 1 i.actions in
      record {
        plan = plan_of lib py rows id i c.context c.digest;
        target = c.target;
        revision = c.revision;
        actor = c.actor;
        origin = c.origin;
        stored = refl;
        some_action = ground (arith, least, same);
        bounded = ground (arith, most, same);
        counted = sym same;
        numbered = number_from-in_order lib py rows 1 i.actions;
        target_found = c.target_found;
        revision_found = c.revision_found;
        bound = bound;
        same_profile = same_profile;
        active = active;
        actor_found = c.actor_found;
        own_actor = (==_iff _ _).0 c.actor_owned;
        credited =
            check_credential-IsCredited lib py rows i.actor_identity_id c.actor
              i.credential_binding_id c.credential_checked;
        origin_parsed = c.origin_parsed;
        safe =
            number_from-IsSafe i.target_id c.origin 1 i.actions
              (check_actions-IsSafe lib py rows i.target_id c.origin i.actions c.actions_checked);
      }

  -- The rows of a plan that is created hold the actions of the request, 1 to 100 and numbered in their
  -- order. Each is a GET of a URL of at most 2048 characters in the origin of the plan's target, without
  -- a fragment and without a parameter that looks like a secret, and its resource and test case belong
  -- to the target. The plan's revision is active and the one that the target is bound to; the plan's
  -- actor belongs to the target, and has an active credential binding of its own kind unless it is
  -- anonymous, when it has none.
  pub create-IsAdmissible :
      (id : ℕ) (i : PlanInput) (s : Snapshot)
      → create_execution_plan lib py rows id i ≡ ok s
      → IsAdmissible s × (map input_of s.actions ≡ i.actions)
  create-IsAdmissible id i s h =
      let c = create-IsCreated lib py rows id i s h in
      subst (λ x. IsAdmissible x × (map input_of x.actions ≡ i.actions)) c.snapshot
        (snapshot-IsAdmissible id i s c, map-number_from lib py rows 1 i.actions)
