-- ===== src/Plans/Created.antt =====
-- What `create_execution_plan` has read, checked and computed when it returns a plan.
use ai_api_security_platform.Prelude.{
  ℕ, ◌==◌, ◌≡◌, ap, true, not, ◌&&◌, Option, none, some, any, length, leb, Text, Result, ok, err,
  guard, >>=-eq-ok, guard-eq-ok, ok-injective, arith,
}
use ai_api_security_platform.Policy.Python.{Python}
use ai_api_security_platform.Policy.Origin.{Origin, parse_origin}
use ai_api_security_platform.Policy.Engine.{Target, AuthorizationRevision}
use ai_api_security_platform.Bola.Ownership.{TestIdentity}
use ai_api_security_platform.Bola.Json.{Value}
use ai_api_security_platform.Plans.Digest.{Library, compute_plan_digest_v1}
use ai_api_security_platform.Plans.Creation
use ai_api_security_platform.Plans.Creation.{
  PlanError, wrong_action_count, research_closed, not_serializable, target_or_revision_missing,
  foreign_actor, origin_rejected, Rows, PlanInput, Snapshot, lift, found, is_research_context,
  is_research_case, canonicalize_policy_context, check_credential, check_actions, check_revision,
  number_from, snapshot_of, insert_execution_plan, create_execution_plan, max_plan_actions,
}

pub lift-eq-ok : {E F A : Type 0} (f : E → F) (r : Result E A) {a : A} → lift f r ≡ ok a → r ≡ ok a
lift-eq-ok f (err e) h = absurd (ground (arith, h))
lift-eq-ok f (ok b) h = ap ok (ok-injective h)

pub found-eq-ok : {E A : Type 0} (o : Option A) (e : E) {a : A} → found o e ≡ ok a → o ≡ some a
found-eq-ok none e h = absurd (ground (arith, h))
found-eq-ok (some b) e h = ap some (ok-injective h)

module _ (lib : Library) (py : Python) (rows : Rows) where
  -- What a successful creation has read, checked and computed.
  pub record IsCreated (id : ℕ) (i : PlanInput) (s : Snapshot) : Type 0 where
    pub target : Target
    pub revision : AuthorizationRevision
    pub actor : TestIdentity
    pub origin : Origin
    pub context : Value
    pub digest : Text
    pub counted : (leb 1 (length i.actions) && leb (length i.actions) max_plan_actions) ≡ true
    pub target_found : rows.targets i.target_id ≡ some target
    pub revision_found : rows.revisions i.authorization_revision_id ≡ some revision
    pub revision_checked :
        check_revision lib py rows target revision i.authorization_revision_id ≡ ok tt
    pub actor_found : rows.identities i.actor_identity_id ≡ some actor
    pub actor_owned : (actor.target_id == i.target_id) ≡ true
    pub credential_checked :
        check_credential lib py rows i.actor_identity_id actor i.credential_binding_id ≡ ok tt
    pub origin_parsed : parse_origin py target.base_url ≡ ok origin
    pub actions_checked : check_actions lib py rows i.target_id origin i.actions ≡ ok tt
    pub context_checked : canonicalize_policy_context lib i.policy_context ≡ ok context
    pub digested :
        compute_plan_digest_v1 lib (Creation.content_of lib py rows i context) ≡ some digest
    pub snapshot : snapshot_of lib py rows id i context digest ≡ s

  insert-IsCreated :
      (id : ℕ) (i : PlanInput) (s : Snapshot)
      → insert_execution_plan lib py rows id i ≡ ok s
      → IsCreated id i s
  unfolding insert_execution_plan
  insert-IsCreated id i s h =
      let (_, counted, h1) =
        >>=-eq-ok
          (guard (leb 1 (length i.actions) && leb (length i.actions) max_plan_actions)
            wrong_action_count)
          _ h in
      let (target, target_found, h2) =
        >>=-eq-ok (found (rows.targets i.target_id) target_or_revision_missing) _ h1 in
      let (revision, revision_found, h3) =
        >>=-eq-ok (found (rows.revisions i.authorization_revision_id) target_or_revision_missing) _
          h2 in
      let (_, revision_checked, h4) =
        >>=-eq-ok (check_revision lib py rows target revision i.authorization_revision_id) _ h3 in
      let (actor, actor_found, h5) =
        >>=-eq-ok (found (rows.identities i.actor_identity_id) foreign_actor) _ h4 in
      let (_, actor_owned, h6) =
        >>=-eq-ok (guard (actor.target_id == i.target_id) foreign_actor) _ h5 in
      let (_, credential_checked, h7) =
        >>=-eq-ok (check_credential lib py rows i.actor_identity_id actor i.credential_binding_id) _
          h6 in
      let (origin, origin_parsed, h8) =
        >>=-eq-ok (lift origin_rejected (parse_origin py target.base_url)) _ h7 in
      let (_, actions_checked, h9) =
        >>=-eq-ok (check_actions lib py rows i.target_id origin i.actions) _ h8 in
      let (context, context_checked, h10) =
        >>=-eq-ok (canonicalize_policy_context lib i.policy_context) _ h9 in
      let (digest, digested, h11) =
        >>=-eq-ok
          (found (compute_plan_digest_v1 lib (Creation.content_of lib py rows i context))
            not_serializable)
          _ h10 in
      record {
        target = target;
        revision = revision;
        actor = actor;
        origin = origin;
        context = context;
        digest = digest;
        counted = guard-eq-ok _ wrong_action_count counted;
        target_found = found-eq-ok _ target_or_revision_missing target_found;
        revision_found = found-eq-ok _ target_or_revision_missing revision_found;
        revision_checked = revision_checked;
        actor_found = found-eq-ok _ foreign_actor actor_found;
        actor_owned = guard-eq-ok _ foreign_actor actor_owned;
        credential_checked = credential_checked;
        origin_parsed = lift-eq-ok origin_rejected (parse_origin py target.base_url) origin_parsed;
        actions_checked = actions_checked;
        context_checked = context_checked;
        digested =
            found-eq-ok (compute_plan_digest_v1 lib (Creation.content_of lib py rows i context))
              not_serializable digested;
        snapshot = ok-injective {a = snapshot_of lib py rows id i context digest} h11;
      }

  pub create-IsCreated :
      (id : ℕ) (i : PlanInput) (s : Snapshot)
      → create_execution_plan lib py rows id i ≡ ok s
      → IsCreated id i s
  unfolding create_execution_plan
  create-IsCreated id i s h =
      let (_, _, h1) =
        >>=-eq-ok (guard (not (is_research_context i.policy_context)) research_closed) _ h in
      let (_, _, h2) =
        >>=-eq-ok
          (guard (not (any (λ a. is_research_case lib py rows a.test_case_id) i.actions))
            research_closed)
          _ h1 in
      insert-IsCreated id i s h2
