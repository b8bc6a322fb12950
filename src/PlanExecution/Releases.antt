-- ===== src/PlanExecution/Releases.antt =====
-- The claims of one execution: what is acquired is released.
pub mod Finally
pub mod Calls
pub mod Whole
pub mod Complete
use ai_api_security_platform.Prelude.{
  ℕ, ◌+◌, ◌≡◌, refl, ◌∙◌, inl, inr, ◌⊎◌, ◌≢◌, Bool-cases, Bool, true, false, Option, none, some,
  List, [], ◌∷◌, ◌++◌, map, any, Result, ok, err, arith, if◌then◌else◌,
}
use ai_api_security_platform.Network.Gateway.{GatewayResult}
use ai_api_security_platform.Executor.{
  Blocked, execution_plan_claim_cleanup_failed, ExecutionError, blocked, network_failed, uncaught,
  Effect,
}
use ai_api_security_platform.Execution.Database.{Db}
use ai_api_security_platform.Execution.Claim.{
  ClaimError, claim_coordination, claim_lost, ClaimHandle, release, assert_current_in,
}
use ai_api_security_platform.PlanExecution.Surroundings.{
  Others, Persisted, stored, unacknowledged, not_stored, Surroundings, Status, finishing, Action,
  interfered, acquired, released, escaped, uncaught_exception, set_up, called, PlanExecutionError,
  Call, releasing, Conclusion, concludes, noted, noted_all, meanwhile, preflight_blocked,
  audit_failure, post_network_failure,
}
use ai_api_security_platform.PlanExecution.Sending.{
  is_refreshed, is_marked, audit_cleanup, release_claim, finally_release, persist, insert_run,
  asserted, finish, conclude, reached,
}

abbrev is_acquired : Action → ℕ
is_acquired acquired = 1
is_acquired _ = 0

abbrev is_released : Action → ℕ
is_released released = 1
is_released _ = 0

abbrev pub acquisitions : List Action → ℕ
acquisitions [] = 0
acquisitions (a ∷ log) = is_acquired a + acquisitions log

abbrev pub releases : List Action → ℕ
releases [] = 0
releases (a ∷ log) = is_released a + releases log

abbrev is_escaped : Action → ℕ
is_escaped escaped = 1
is_escaped _ = 0

-- The exceptions that pass a held claim by its release.
abbrev pub escapes : List Action → ℕ
escapes [] = 0
escapes (a ∷ log) = is_escaped a + escapes log

pub acquisitions-append :
    (log later : List Action) → acquisitions (log ++ later) ≡ acquisitions log + acquisitions later
acquisitions-append [] later = omega arith
acquisitions-append (a ∷ log) later = omega (arith, acquisitions-append log later)

pub releases-append :
    (log later : List Action) → releases (log ++ later) ≡ releases log + releases later
releases-append [] later = omega arith
releases-append (a ∷ log) later = omega (arith, releases-append log later)

pub escapes-append :
    (log later : List Action) → escapes (log ++ later) ≡ escapes log + escapes later
escapes-append [] later = omega arith
escapes-append (a ∷ log) later = omega (arith, escapes-append log later)

module _ (s : Surroundings) where
  -- The commit or the reads before the executor's `try` raise, or the reading in its `finally` may.
  abbrev pub IsFaulty : Type 0
  IsFaulty = (s.setup ≢ set_up) ⊎ ((r : Result PlanExecutionError ℕ) × (s.unreadable r ≡ true))

  -- No exception passes the release by, or the execution ends by one.
  abbrev pub EndsEscaped : Conclusion → Type 0
  EndsEscaped d = (escapes d.log ≡ 0) ⊎ ((d.result ≡ err uncaught_exception) × IsFaulty)

  -- The log releases what it acquires, and `k` claims that were held before, unless an exception passes
  -- the release by.
  pub record IsReturned (k : ℕ) (d : Conclusion) : Type 0 where
    pub balance : k + acquisitions d.log ≡ releases d.log + escapes d.log
    pub ended : EndsEscaped d

  pub ends-IsReturned : (r : Result PlanExecutionError ℕ) (db : Db) → IsReturned 0 (concludes r db)
  ends-IsReturned r db = record { balance = refl; ended = inl refl }

  pub if-IsReturned :
      (k : ℕ) (b : Bool) {d d' : Conclusion}
      → IsReturned k d
      → IsReturned k d'
      → IsReturned k (if b then d else d')
  if-IsReturned k true t u = t
  if-IsReturned k false t u = u

  -- Actions without an escape, and what follows them.
  noted_all-EndsEscaped :
      (actions : List Action) (d : Conclusion)
      → escapes actions ≡ 0
      → EndsEscaped d
      → EndsEscaped (noted_all actions d)
  noted_all-EndsEscaped actions d z (inl none_escaped) =
      inl (omega (arith, z, none_escaped, escapes-append actions d.log))
  noted_all-EndsEscaped actions d z (inr raised) = inr raised

  -- Actions after which `k` of `i` claims are held.
  pub noted_all-IsReturned :
      (i k : ℕ) (actions : List Action) {d : Conclusion}
      → i + acquisitions actions ≡ releases actions + k
      → escapes actions ≡ 0
      → IsReturned k d
      → IsReturned i (noted_all actions d)
  noted_all-IsReturned i k actions {d = d} e z t = record {
    balance = omega (
      arith,
      e,
      z,
      t.balance,
      acquisitions-append actions d.log,
      releases-append actions d.log,
      escapes-append actions d.log,
    );
    ended = noted_all-EndsEscaped actions d z t.ended;
  }

  -- An exception that passes the release of the one claim that is held by.
  pub escaped-IsReturned :
      (db : Db) → IsFaulty → IsReturned 1 (noted escaped (concludes (err uncaught_exception) db))
  escaped-IsReturned db faulty = record { balance = refl; ended = inr (refl, faulty) }

  -- An action that is none of the three.
  pub noted-IsReturned :
      (k : ℕ) (a : Action) {d : Conclusion}
      → is_acquired a ≡ is_released a
      → is_escaped a ≡ 0
      → IsReturned k d
      → IsReturned k (noted a d)
  noted-IsReturned k a e z t =
      noted_all-IsReturned k k (a ∷ []) (omega (arith, e)) (omega (arith, z)) t

  pub called-IsReturned :
      (k : ℕ) (log : List Effect) {d : Conclusion}
      → IsReturned k d
      → IsReturned k (noted_all (map called log) d)
  called-IsReturned k [] t = t
  called-IsReturned k (e ∷ log) t =
      noted-IsReturned k (called e) refl refl (called-IsReturned k log t)

module _ (s : Surroundings) where
  pub meanwhile-IsReturned :
      (k : ℕ) (c : Call) (db : Db) (next : Db → Conclusion)
      → ((d : Db) → IsReturned s k (next d))
      → IsReturned s k (meanwhile s c db next)
  meanwhile-IsReturned k c db next t = noted-IsReturned s k _ refl refl (t _)

  pub preflight_blocked-IsReturned :
      (code : Blocked) (db : Db) → IsReturned s 0 (preflight_blocked s code db)
  unfolding preflight_blocked
  preflight_blocked-IsReturned code db =
      if-IsReturned s 0 (s.audit_stored code)
        (noted-IsReturned s 0 _ refl refl (ends-IsReturned s _ db)) (ends-IsReturned s _ db)

  audit_failure-IsReturned :
      (code : Blocked) {d : Conclusion} → IsReturned s 0 d → IsReturned s 0 (audit_failure s code d)
  audit_failure-IsReturned code t =
      if-IsReturned s 0 (s.audit_stored code) (noted-IsReturned s 0 _ refl refl t) t

  pub post_network_failure-IsReturned :
      (code : Blocked) (db : Db) → IsReturned s 0 (post_network_failure s code db)
  unfolding post_network_failure
  post_network_failure-IsReturned code db = audit_failure-IsReturned code (ends-IsReturned s _ db)

  module _ (n : ℕ) where
    audit_cleanup-IsReturned :
        (r : Result ClaimError ℕ) {d : Conclusion}
        → IsReturned s 0 d
        → IsReturned s 0 (audit_cleanup n s r d)
    audit_cleanup-IsReturned (err claim_coordination) t = audit_failure-IsReturned _ t
    audit_cleanup-IsReturned (err _) t = t
    audit_cleanup-IsReturned (ok _) t = t

    pub release_claim-IsReturned :
        (h : ClaimHandle) (db : Db) (next : Db → Conclusion)
        → ((d : Db) → IsReturned s 0 (next d))
        → IsReturned s 1 (release_claim n s h db next)
    unfolding release_claim
    release_claim-IsReturned h db next t =
        meanwhile-IsReturned 1 releasing db
          (λ d.
            let r = release n h (s.attempts releasing) d in
            noted released (audit_cleanup n s r.result (next r.db)))
          (λ d.
            noted_all-IsReturned s 1 0 (released ∷ []) refl refl
              (audit_cleanup-IsReturned (release n h (s.attempts releasing) d).result (t _)))
