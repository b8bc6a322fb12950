-- ===== src/Bola/Analyzer/Outcomes.antt =====
-- When the analyzer reports a potential disclosure, and when it reports a rejection.
use ai_api_security_platform.Prelude.{
  ℕ, ◌≡◌, ◌≢◌, ◌≤◌, ◌<◌, ◌↔◌, refl, sym, subst, inl, inr, ◌⊎◌, true, false, Option, none, some,
  Text, arith, Bool-cases,
}
use ai_api_security_platform.Bola.Ownership.{Resource}
use ai_api_security_platform.Bola.Generator.{TestType, bola_cross_owner}
use ai_api_security_platform.Bola.Json.{Value, json_matching_resource_id_key, is_identifier}
use ai_api_security_platform.Bola.Json.Search.{Occurs, find_exact}
use ai_api_security_platform.Bola.Analyzer.{
  pass, potential_bola, TestRun, Library, is_success_status, is_rejection, has_error,
  parse_json_body, key_in, classify_bola_run, analyze_bola_run,
}

module _ (lib : Library) (test_type : TestType) (cross : TestRun) (resource : Resource) where
  -- Both runs succeeded, and both bodies hold the identifier of the resource.
  pub record IsDisclosed (baseline : TestRun) : Type 0 where
    pub cross_test : test_type ≡ bola_cross_owner
    pub cross_clean : has_error cross ≡ false
    pub baseline_clean : has_error baseline ≡ false
    pub cross_status : ℕ
    pub cross_success :
        (cross.response_status ≡ some cross_status) × (200 ≤ cross_status) × (cross_status < 300)
    pub baseline_status : ℕ
    pub baseline_success :
        (baseline.response_status ≡ some baseline_status)
        × (200 ≤ baseline_status)
        × (baseline_status < 300)
    pub cross_json : Value
    pub cross_parsed : parse_json_body lib cross.response_body ≡ some cross_json
    pub cross_key : Text
    pub cross_found : json_matching_resource_id_key lib.lower resource cross_json ≡ some cross_key
    pub baseline_key : Text
    pub baseline_found :
        key_in lib resource (parse_json_body lib baseline.response_body) ≡ some baseline_key

  IsDisclosed-from :
      (b : TestRun) (s bs : Option ℕ) (c : Option Value) (kb kc : Option Text)
      → cross.response_status ≡ s
      → b.response_status ≡ bs
      → parse_json_body lib cross.response_body ≡ c
      → key_in lib resource (parse_json_body lib b.response_body) ≡ kb
      → key_in lib resource c ≡ kc
      → (classify_bola_run lib test_type cross (some b) resource).outcome ≡ potential_bola
      → IsDisclosed b
  unfolding classify_bola_run
  IsDisclosed-from b none bs c kb kc es ebs ec ekb ekc h = absurd (ground arith)
  IsDisclosed-from b (some s) none c kb kc es ebs ec ekb ekc h = absurd (ground arith)
  IsDisclosed-from b (some s) (some bs) none kb kc es ebs ec ekb ekc h = absurd (ground arith)
  IsDisclosed-from b (some s) (some bs) (some c) none kc es ebs ec ekb ekc h = absurd (ground arith)
  IsDisclosed-from b (some s) (some bs) (some c) (some kb) none es ebs ec ekb ekc h =
      absurd (ground arith)
  IsDisclosed-from b (some s) (some bs) (some c) (some kb) (some kc) es ebs ec ekb ekc h = record {
    cross_test = ground arith;
    cross_clean = ground arith;
    baseline_clean = ground arith;
    cross_status = s;
    cross_success = (es, ground arith, ground arith);
    baseline_status = bs;
    baseline_success = (ebs, ground arith, ground arith);
    cross_json = c;
    cross_parsed = ec;
    cross_key = kc;
    cross_found = ekc;
    baseline_key = kb;
    baseline_found = ekb;
  }

  disclosed_complete :
      (b : TestRun)
      → IsDisclosed b
      → (classify_bola_run lib test_type cross (some b) resource).outcome ≡ potential_bola
  unfolding classify_bola_run
  disclosed_complete b d = ground (
    arith, d.cross_success.0, d.cross_success.1, d.cross_success.2, d.baseline_success.0,
    d.baseline_success.1, d.baseline_success.2,
  )

  classify_without : (classify_bola_run lib test_type cross none resource).outcome ≢ potential_bola
  unfolding classify_bola_run
  classify_without h = ground arith

  -- A potential disclosure is reported exactly for a cross-owner test with a baseline where both runs
  -- ended without an error and with a success status, and the identifier is found in both bodies.
  pub potential_iff :
      (baseline : Option TestRun)
      → ((analyze_bola_run lib test_type cross baseline resource).outcome ≡ potential_bola)
        ↔ ((b : TestRun) × (baseline ≡ some b) × IsDisclosed b)
  unfolding analyze_bola_run
  potential_iff none = (λ h. absurd (classify_without h), λ h. absurd (ground (arith, h.1)))
  potential_iff (some b) = (
    λ h. (
      b,
      refl,
      IsDisclosed-from b cross.response_status b.response_status
          (parse_json_body lib cross.response_body)
          (key_in lib resource (parse_json_body lib b.response_body))
          (key_in lib resource (parse_json_body lib cross.response_body)) refl refl refl refl refl
          h,
    ),
    λ h.
        let same : b ≡ h.0 = ground (arith, h.1) in
        disclosed_complete b (subst IsDisclosed (sym same) h.2),
  )

  -- The reported key is that of a field of the cross-owner body, at some depth, whose name is `id` or
  -- the resource's and whose value is the resource's identifier.
  pub disclosed_key :
      (b : TestRun) (d : IsDisclosed b)
      → Occurs (is_identifier lib.lower resource) d.cross_key d.cross_json
  unfolding json_matching_resource_id_key
  disclosed_key b d =
      (find_exact (is_identifier lib.lower resource) d.cross_json).0 d.cross_key d.cross_found

  rejection_codes : (s : ℕ) → is_rejection s ≡ true → (s ≡ 401) ⊎ ((s ≡ 403) ⊎ (s ≡ 404))
  rejection_codes s e = ground arith

  not_rejected :
      (b : TestRun) (s bs : ℕ)
      → cross.response_status ≡ some s
      → b.response_status ≡ some bs
      → is_rejection s ≡ false
      → (classify_bola_run lib test_type cross (some b) resource).outcome ≢ pass
  unfolding classify_bola_run
  not_rejected b s bs cs bstat e h = ground arith

  -- A rejection never counts as a disclosure: with a clean, successful baseline the outcome of a run
  -- that was answered 401, 403 or 404 is a pass.
  pub rejected_passes :
      (b : TestRun) (s bs : ℕ)
      → test_type ≡ bola_cross_owner
      → has_error cross ≡ false
      → has_error b ≡ false
      → cross.response_status ≡ some s
      → b.response_status ≡ some bs
      → is_success_status bs ≡ true
      → ((analyze_bola_run lib test_type cross (some b) resource).outcome ≡ pass)
        ↔ ((s ≡ 401) ⊎ ((s ≡ 403) ⊎ (s ≡ 404)))
  unfolding analyze_bola_run
  rejected_passes b s bs t ce be cs bstat good = (
    λ h. elim (Bool-cases (is_rejection s)) [
      | inl e ↦ rejection_codes s e
      | inr e ↦ absurd (not_rejected b s bs cs bstat e h)
    ],
    λ h. ground arith,
  )
