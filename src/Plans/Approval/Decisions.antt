-- ===== src/Plans/Approval/Decisions.antt =====
-- What a decision on a plan does, and when a plan is approved.
use ai_api_security_platform.Prelude.{
  ℕ, ==_refl, ◌≡◌, ◌↔◌, refl, ap, subst, Bool, true, false, not, &&_iff, ==_iff, ◌&&◌, inl, inr,
  ◌==◌, Bool-cases, some, List, [], ◌∷◌, ◌++◌, All, Text, text, ◌=ₜ◌, =ₜ_refl, =ₜ_iff, Result, ok,
  err, guard, >>=-eq-ok, ok-injective, arith, if◌then◌else◌, guard-eq-ok, not-true,
}
use ai_api_security_platform.Policy.Python.{Python}
use ai_api_security_platform.Plans.Digest.{Library, ExecutionPlan}
use ai_api_security_platform.Plans.Creation.{Rows, Snapshot}
use ai_api_security_platform.Plans.Approval.{
  IntegrityError, plan_unavailable, wrong_ordering, unsupported_digest, wrong_action_count,
  digest_mismatch, invalid_decision, research_closed, uncaught_serialization, ApprovalRecord,
  validate_persisted_plan_integrity, new_plan, is_exact, latest_exact_decision, is_approval,
  approval_of, is_plan_approved, is_decision, append_exact_decision, record_plan_decision,
}

module _ (lib : Library) (py : Python) (rows : Rows) (is_member_plan : ℕ → Bool) where
  exact_refl :
      (plan : ExecutionPlan) (decision : Text)
      → is_exact lib py rows is_member_plan plan (record {
        execution_plan_id = plan.id;
        digest_version = plan.digest_version;
        plan_digest = plan.plan_digest;
        decision = decision;
      })
        ≡ true
  exact_refl plan decision =
      (&&_iff _ _).1
        ((&&_iff _ _).1 (==_refl plan.id, =ₜ_refl plan.digest_version), =ₜ_refl plan.plan_digest)

  appended-latest :
      (plan : ExecutionPlan) (decision : Text) (records later : List ApprovalRecord)
      → append_exact_decision lib py rows is_member_plan plan decision records ≡ ok later
      → is_approval lib py rows is_member_plan
          (latest_exact_decision lib py rows is_member_plan plan later)
        ≡ (decision =ₜ text "approved")
  unfolding append_exact_decision
  appended-latest plan decision records later h =
      let (_, _, e) =
        >>=-eq-ok (guard (is_decision lib py rows is_member_plan decision) invalid_decision) _ h in
      subst
        (λ l.
          is_approval lib py rows is_member_plan
            (latest_exact_decision lib py rows is_member_plan plan l)
          ≡ (decision =ₜ text "approved"))
        (ok-injective e) (rw (exact_refl plan decision) refl)

  -- A decision that is recorded decides: afterwards the plan is approved if the decision is "approved",
  -- and not approved if it is "revoked", whatever was recorded before.
  pub decision_decides :
      (s : Snapshot) (decision : Text) (records later : List ApprovalRecord)
      → record_plan_decision lib py rows is_member_plan s decision records ≡ ok later
      → is_plan_approved lib py rows is_member_plan s later ≡ ok (decision =ₜ text "approved")
  unfolding record_plan_decision is_plan_approved
  decision_decides s decision records later h =
      let (_, _, h1) =
        >>=-eq-ok (guard (is_decision lib py rows is_member_plan decision) invalid_decision) _ h in
      let (plan, valid, h2) = >>=-eq-ok (validate_persisted_plan_integrity lib s) _ h1 in
      let (_, allowed, h3) =
        >>=-eq-ok (guard (not (new_plan lib py rows is_member_plan plan s.actions)) research_closed)
          _ h2 in
      let eligible = guard-eq-ok _ research_closed allowed in
      let latest = appended-latest plan decision records later h3 in
      rw (valid, eligible, latest) refl

  -- The record names the plan, its digest and its digest version.
  abbrev pub IsExact : ExecutionPlan → ApprovalRecord → Type 0
  IsExact plan r =
      (r.execution_plan_id ≡ plan.id)
      × (r.digest_version ≡ plan.digest_version)
      × (r.plan_digest ≡ plan.plan_digest)

  is_exact-IsExact :
      (plan : ExecutionPlan) (r : ApprovalRecord)
      → is_exact lib py rows is_member_plan plan r ≡ true
      → IsExact plan r
  is_exact-IsExact plan r e =
      let (both, digest) =
        (&&_iff (r.execution_plan_id == plan.id && r.digest_version =ₜ plan.digest_version)
            (r.plan_digest =ₜ plan.plan_digest)).0
          e in
      let (id, version) =
        (&&_iff (r.execution_plan_id == plan.id) (r.digest_version =ₜ plan.digest_version)).0
          both in
      ((==_iff _ _).0 id, (=ₜ_iff _ _).0 version, (=ₜ_iff _ _).0 digest)

  IsExact-is_exact :
      (plan : ExecutionPlan) (r : ApprovalRecord)
      → IsExact plan r
      → is_exact lib py rows is_member_plan plan r ≡ true
  IsExact-is_exact plan r (id, version, digest) =
      (&&_iff _ _).1
        ((&&_iff _ _).1 ((==_iff _ _).1 id, (=ₜ_iff _ _).1 version), (=ₜ_iff _ _).1 digest)

  not_exact :
      (plan : ExecutionPlan) (r : ApprovalRecord)
      → ¬ IsExact plan r
      → is_exact lib py rows is_member_plan plan r ≡ false
  not_exact plan r n = elim (Bool-cases (is_exact lib py rows is_member_plan plan r)) [
    | inl e ↦ absurd (n (is_exact-IsExact plan r e))
    | inr e ↦ e
  ]

  -- The newest record of exactly this plan and digest is an approval.
  abbrev pub IsApproved : ExecutionPlan → List ApprovalRecord → Type 0
  IsApproved plan records =
      (newer : List ApprovalRecord) × (r : ApprovalRecord) × (older : List ApprovalRecord)
      × (records ≡ newer ++ r ∷ older)
      × All (λ x. ¬ IsExact plan x) newer
      × IsExact plan r
      × (r.decision ≡ text "approved")

  latest-IsApproved :
      (plan : ExecutionPlan) (records : List ApprovalRecord)
      → is_approval lib py rows is_member_plan
          (latest_exact_decision lib py rows is_member_plan plan records)
        ≡ true
      → IsApproved plan records
  latest-IsApproved plan [] e = absurd (ground (arith, e))
  latest-IsApproved plan (r ∷ records) e =
      go (latest-IsApproved plan records) (is_exact lib py rows is_member_plan plan r) refl e
    where
      go :
          (is_approval lib py rows is_member_plan
                (latest_exact_decision lib py rows is_member_plan plan records)
              ≡ true
            → IsApproved plan records)
          → (b : Bool) → is_exact lib py rows is_member_plan plan r ≡ b
          → is_approval lib py rows is_member_plan
              (if b then some r else latest_exact_decision lib py rows is_member_plan plan records)
            ≡ true
          → IsApproved plan (r ∷ records)
      go later true f g = ([], r, records, refl, tt, is_exact-IsExact plan r f, (=ₜ_iff _ _).0 g)
      go later false f g =
          let (newer, x, older, e, others, exact, approved) = later g in
          (
            r ∷ newer,
            x,
            older,
            ap (λ l. r ∷ l) e,
            (λ q. absurd (cc (f, IsExact-is_exact plan r q)), others),
            exact,
            approved,
          )

  latest-append :
      (plan : ExecutionPlan) (newer : List ApprovalRecord) (r : ApprovalRecord)
      (older : List ApprovalRecord)
      → All (λ x. ¬ IsExact plan x) newer
      → IsExact plan r
      → latest_exact_decision lib py rows is_member_plan plan (newer ++ r ∷ older) ≡ some r
  latest-append plan [] r older others e = rw (IsExact-is_exact plan r e) refl
  latest-append plan (x ∷ newer) r older (f, others) e =
      rw (not_exact plan x f) (latest-append plan newer r older others e)

  IsApproved-latest :
      (plan : ExecutionPlan) (records : List ApprovalRecord)
      → IsApproved plan records
      → is_approval lib py rows is_member_plan
          (latest_exact_decision lib py rows is_member_plan plan records)
        ≡ true
  IsApproved-latest plan records (newer, r, older, e, others, exact, approved) =
      rw (e, latest-append plan newer r older others exact) ((=ₜ_iff _ _).1 approved)

  -- A plan is approved exactly if it passes the integrity check, does not belong to research, and the
  -- newest of the records of its exact digest and digest version is an approval.
  pub IsApproved-iff :
      (s : Snapshot) (records : List ApprovalRecord)
      → (is_plan_approved lib py rows is_member_plan s records ≡ ok true) ↔ (
          (plan : ExecutionPlan) × (validate_persisted_plan_integrity lib s ≡ ok plan)
          × (new_plan lib py rows is_member_plan plan s.actions ≡ false)
          × IsApproved plan records)
  unfolding is_plan_approved
  IsApproved-iff s records = (
    λ e. go (validate_persisted_plan_integrity lib s) refl e,
    λ (plan, valid, allowed, approved).
        rw (valid, allowed, IsApproved-latest plan records approved) refl,
  )
    where
      go :
          (r : Result IntegrityError ExecutionPlan)
          → validate_persisted_plan_integrity lib s ≡ r
          → approval_of lib py rows is_member_plan s.actions records r ≡ ok true
          → (plan : ExecutionPlan) × (validate_persisted_plan_integrity lib s ≡ ok plan)
            × (new_plan lib py rows is_member_plan plan s.actions ≡ false)
            × IsApproved plan records
      go (err plan_unavailable) v e = absurd (ground (arith, e))
      go (err wrong_ordering) v e = absurd (ground (arith, e))
      go (err unsupported_digest) v e = absurd (ground (arith, e))
      go (err wrong_action_count) v e = absurd (ground (arith, e))
      go (err digest_mismatch) v e = absurd (ground (arith, e))
      go (err invalid_decision) v e = absurd (ground (arith, e))
      go (err research_closed) v e = absurd (ground (arith, e))
      go (err uncaught_serialization) v e = absurd (ground (arith, e))
      go (ok plan) v e =
          let (allowed, approved) =
            (&&_iff (not (new_plan lib py rows is_member_plan plan s.actions)) (
                is_approval lib py rows is_member_plan
                  (latest_exact_decision lib py rows is_member_plan plan records))).0
              (ok-injective e) in
          (plan, v, not-true _ allowed, latest-IsApproved plan records approved)
