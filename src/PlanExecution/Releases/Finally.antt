-- ===== src/PlanExecution/Releases/Finally.antt =====
-- The claim over the `finally` of an execution.
use ai_api_security_platform.Prelude.{
  ℕ, ◌≡◌, refl, ◌∙◌, inl, inr, Bool-cases, Result, ok, err, arith,
}
use ai_api_security_platform.Executor.{execution_plan_claim_cleanup_failed}
use ai_api_security_platform.Execution.Database.{Db}
use ai_api_security_platform.Execution.Claim.{ClaimError, claim_coordination, ClaimHandle, release}
use ai_api_security_platform.PlanExecution.Surroundings.{
  Surroundings, PlanExecutionError, releasing, Conclusion, concludes, noted_all,
}
use ai_api_security_platform.PlanExecution.Sending.{audit_cleanup, release_claim, finally_release}
use ai_api_security_platform.PlanExecution.Releases.{
  IsReturned, IsFaulty, EndsEscaped, acquisitions-append, releases-append, escapes, escapes-append,
  ends-IsReturned, escaped-IsReturned, release_claim-IsReturned,
}

module _ (s : Surroundings) (n : ℕ) where
  audit_cleanup-kept :
      (r : Result ClaimError ℕ) (result : Result PlanExecutionError ℕ) (db : Db)
      → (escapes (audit_cleanup n s r (concludes result db)).log ≡ 0)
        × ((audit_cleanup n s r (concludes result db)).result ≡ result)
  audit_cleanup-kept (err claim_coordination) result db =
      elim (Bool-cases (s.audit_stored execution_plan_claim_cleanup_failed)) [
        | inl e ↦ rw e (refl, refl)
        | inr e ↦ rw e (refl, refl)
      ]
  audit_cleanup-kept (err _) result db = (refl, refl)
  audit_cleanup-kept (ok _) result db = (refl, refl)

  -- A release that follows a conclusion keeps its result.
  release_claim-kept :
      (h : ClaimHandle) (db : Db) (result : Result PlanExecutionError ℕ)
      → (escapes (release_claim n s h db (concludes result)).log ≡ 0)
        × ((release_claim n s h db (concludes result)).result ≡ result)
  unfolding release_claim
  release_claim-kept h db result =
      let r = release n h (s.attempts releasing) (s.others releasing db).db in
      let (none_escaped, same) = audit_cleanup-kept r.result result r.db in
      (omega (arith, none_escaped), same)

  -- What follows a conclusion, when it keeps its result and escapes nowhere.
  kept-EndsEscaped :
      (d d' : Conclusion)
      → (escapes d'.log ≡ 0) × (d'.result ≡ d.result)
      → EndsEscaped s d
      → EndsEscaped s (noted_all d.log d')
  kept-EndsEscaped d d' (z, same) (inl none_escaped) =
      inl (omega (arith, z, none_escaped, escapes-append d.log d'.log))
  kept-EndsEscaped d d' (z, same) (inr (raised, faulty)) = inr (same ∙ raised, faulty)

  -- the balance of a conclusion, and of what follows it
  appended :
      (d d' : Conclusion)
      → IsReturned s 0 d
      → IsReturned s 1 d'
      → EndsEscaped s (noted_all d.log d')
      → IsReturned s 1 (noted_all d.log d')
  appended d d' t u e = record {
    balance = omega (
      arith,
      t.balance,
      u.balance,
      acquisitions-append d.log d'.log,
      releases-append d.log d'.log,
      escapes-append d.log d'.log,
    );
    ended = e;
  }

  pub finally_release-IsReturned :
      (h : ClaimHandle) {d : Conclusion}
      → IsReturned s 0 d
      → IsReturned s 1 (finally_release n s h d)
  unfolding finally_release
  finally_release-IsReturned h {d = d} t = elim (Bool-cases (s.unreadable d.result)) [
    | inl e ↦
        let faulty : IsFaulty s = inr (d.result, e) in
        rw e (appended d _ t (escaped-IsReturned s d.db faulty) (inr (refl, faulty)))
    | inr e ↦
        let d' = release_claim n s h d.db (concludes d.result) in
        rw e (
          appended d d' t (release_claim-IsReturned s n h d.db _ (ends-IsReturned s d.result))
            (kept-EndsEscaped d d' (release_claim-kept h d.db d.result) t.ended))
  ]
