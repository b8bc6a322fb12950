-- ===== src/PlanExecution/Traces/Dispatch.antt =====
-- The steps of the executor's call: a request that is sent has been marked by this execution.
use ai_api_security_platform.Prelude.{
  ℕ, ◌≡◌, ◌≤◌, refl, ap, subst, ◌∙◌, inl, inr, ◌⊎◌, Bool, true, false, List, [], ◌∷◌, map, any, In,
  Text, Result, ok, err, arith, if◌then◌else◌, Bool-cases,
}
use ai_api_security_platform.Policy.Python.{Python}
use ai_api_security_platform.Network.Destination.{Internet}
use ai_api_security_platform.Network.Gateway.{World, GatewayRequest, GatewayResult}
use ai_api_security_platform.Executor.{
  ExecutionError, Effect, observed, waited, refreshed, marked, sent, returns,
}
use ai_api_security_platform.Executor.Clearance.{sent-IsCleared}
use ai_api_security_platform.Execution.Database.{Db}
use ai_api_security_platform.Execution.Claim.{ClaimError, ClaimHandle, renew}
use ai_api_security_platform.Execution.Claim.Lease.{renew-plan}
use ai_api_security_platform.Execution.Progress.{
  ProgressError, ProgressState, progress_in_doubt, progress_lost, progress_coordination,
  progress_cancelled, mark_network_started,
}
use ai_api_security_platform.Execution.Interleaving.{Event, Trace, stop, starts}
use ai_api_security_platform.Execution.Interleaving.Services.{
  Reaches, renew-Reaches, mark_network_started-Reaches, mark_network_started-starts,
}
use ai_api_security_platform.PlanExecution.Surroundings.{
  Others, Surroundings, called, renewing, marking, Conclusion, noted_all,
}
use ai_api_security_platform.PlanExecution.Sending.{
  Order, before_network, renewed_handle, is_refreshed, is_marked, finally_release, conclude,
  reached, caller, run_of, dispatch,
}
use ai_api_security_platform.PlanExecution.Traces.{
  is_sent, sends, weights-called, IsTraced, AreWorkers, noted_all-IsTraced, interfered-IsTraced,
  Reaches-IsTraced, finally_release-IsTraced,
}
use ai_api_security_platform.PlanExecution.Traces.Finish.{conclude-IsTraced}

-- A log sends nothing, or holds a request.
abbrev SendsOrNot : List Effect → Type 0
SendsOrNot log = (sends log ≡ 0) ⊎ ((q : GatewayRequest) × In (sent q) log)

SendsOrNot-later :
    (e : Effect) (log : List Effect) → is_sent e ≡ 0 → SendsOrNot log → SendsOrNot (e ∷ log)
SendsOrNot-later e log z (inl none_sent) = inl (omega (arith, z, none_sent))
SendsOrNot-later e log z (inr (q, m)) = inr (q, inr m)

sends_cases : (log : List Effect) → SendsOrNot log
sends_cases [] = inl refl
sends_cases (sent q ∷ log) = inr (q, inl refl)
sends_cases (observed d ∷ log) = SendsOrNot-later (observed d) log refl (sends_cases log)
sends_cases (waited ∷ log) = SendsOrNot-later waited log refl (sends_cases log)
sends_cases (refreshed ∷ log) = SendsOrNot-later refreshed log refl (sends_cases log)
sends_cases (marked ∷ log) = SendsOrNot-later marked log refl (sends_cases log)

before_network_returns :
    (r : Result ProgressError ProgressState)
    → before_network r ≡ returns tt
    → (state : ProgressState) × (r ≡ ok state)
unfolding before_network
before_network_returns (err progress_in_doubt) e = absurd (ground arith)
before_network_returns (err progress_lost) e = absurd (ground arith)
before_network_returns (err progress_coordination) e = absurd (ground arith)
before_network_returns (err progress_cancelled) e = absurd (ground arith)
before_network_returns (ok state) e = (state, refl)

module _ (n : ℕ) (s : Surroundings) (py : Python) (hosts : List Text) (net : Internet) (w : World)
    (o : Order) (renewal : Result ClaimError ClaimHandle)
    (mark : Result ProgressError ProgressState) where
  abbrev log : List Effect
  log = (run_of n s py hosts net w o renewal mark).log

  -- A request that is sent is the only one, and its mark was committed and acknowledged.
  abbrev IsMarkedFirst : Type 0
  IsMarkedFirst =
      (any is_marked log ≡ true) × (sends log ≡ 1) × (state : ProgressState) × (mark ≡ ok state)

  sent_marked : (q : GatewayRequest) → In (sent q) log → IsMarkedFirst
  sent_marked q m =
      let c =
        sent-IsCleared py hosts net w (caller n s py hosts net w o renewal mark) o.url o.headers q
          o.authorization o.method m in
      let r = c.rechecked in
      elim r.ends [
        | inl (ends, returned, _) ↦
            let whole : log ≡ waited ∷ refreshed ∷ observed r.decision ∷ marked ∷ sent q ∷ [] =
              c.order
              ∙ ap (λ x. waited ∷ refreshed ∷ x)
                  (r.order ∙ ap (λ x. observed r.decision ∷ x) ends) in
            let (state, done) = before_network_returns mark (ground arith) in
            (ap (any is_marked) whole, ap sends whole, state, done)
        | inr (_, inl none_given) ↦ absurd (ground arith)
        | inr (_, inr boundary) ↦ absurd (ground arith)
      ]

  unmarked_sends_nothing : any is_marked log ≡ false → sends log ≡ 0
  unmarked_sends_nothing e = elim (sends_cases log) [
    | inl z ↦ z
    | inr (q, m) ↦ let (yes_marked, _, _, _) = sent_marked q m in absurd (cc (yes_marked, e))
  ]

module _ (plan : ℕ) (n : ℕ) (s : Surroundings) where
  reached-IsTraced :
      (log : List Effect) (first second : Others) (after : Db) (next : Db → Conclusion)
      {db mid : Db}
      → Trace db first.events first.db
      → Reaches first.db mid
      → Trace mid second.events second.db
      → (any is_marked log ≡ true → IsTraced plan second.db (next after))
      → (any is_marked log ≡ false → (d : Db) → IsTraced plan d (next d))
      → IsTraced plan db (reached n s log first second after next)
  unfolding reached
  reached-IsTraced log first second after next t r u hit miss =
      elim (Bool-cases (any is_marked log)) [
        | inl e ↦ rw e (
            interfered-IsTraced plan t
              (Reaches-IsTraced plan r (interfered-IsTraced plan u (hit e))))
        | inr e ↦ elim (Bool-cases (any is_refreshed log)) [
          | inl f ↦
              rw (e, f)
                (interfered-IsTraced plan t
                  (Reaches-IsTraced plan r (interfered-IsTraced plan u (miss e _))))
          | inr f ↦ rw (e, f) (interfered-IsTraced plan t (miss e _))
        ]
      ]

  if-plan :
      (b : Bool) (h h' : ClaimHandle)
      → h.execution_plan_id ≡ plan
      → h'.execution_plan_id ≡ plan
      → (if b then h' else h).execution_plan_id ≡ plan
  if-plan true h h' e f = f
  if-plan false h h' e f = e

module _ (n : ℕ) (s : Surroundings) (py : Python) (hosts : List Text) (net : Internet) (w : World)
    (workers : AreWorkers s) (o : Order) where
  -- what follows the executor's call
  after_run-IsTraced :
      (log : List Effect) (r : Result ExecutionError GatewayResult) (h : ClaimHandle)
      {es : List Event} {a b : Db}
      → h.execution_plan_id ≡ o.plan_id
      → Trace a es b
      → sends log ≤ starts o.plan_id es
      → IsTraced o.plan_id a
          (noted_all (map called log) (finally_release n s h (conclude n s r h o.plan_id b)))
  after_run-IsTraced log r h {b = b} same t le =
      noted_all-IsTraced o.plan_id (map called log) t (omega (arith, weights-called o.plan_id log))
        (finally_release-IsTraced o.plan_id s n workers h _ (
          subst (λ p. IsTraced p b (conclude n s r h p b)) same
            (conclude-IsTraced n s h workers r b)))

  renewed-plan :
      (h : ClaimHandle) (db : Db)
      → h.execution_plan_id ≡ o.plan_id
      → (renewed_handle h
          (renew n h s.claim_lease (s.attempts renewing) db).result).execution_plan_id
        ≡ o.plan_id
  renewed-plan h db same = go _ refl
    where
      go :
          (r : Result ClaimError ClaimHandle)
          → (renew n h s.claim_lease (s.attempts renewing) db).result ≡ r
          → (renewed_handle h r).execution_plan_id ≡ o.plan_id
      go (err e) q = same
      go (ok h') q = renew-plan n h s.claim_lease (s.attempts renewing) db h' q ∙ same

  -- The mark that was called, with a start for each request that was sent.
  mark_accounts :
      (h : ClaimHandle) (renewal : Result ClaimError ClaimHandle) (db : Db)
      → h.execution_plan_id ≡ o.plan_id
      → let mark = mark_network_started n h (s.attempts marking) db in
        (es : List Event) × Trace db es mark.db
        × (sends (run_of n s py hosts net w o renewal mark.result).log ≤ starts o.plan_id es)
  mark_accounts h renewal db same =
      let mark = mark_network_started n h (s.attempts marking) db in
      elim (sends_cases (run_of n s py hosts net w o renewal mark.result).log) [
        | inl z ↦
            let (es, t) = mark_network_started-Reaches n h (s.attempts marking) db in
            (es, t, omega (arith, z))
        | inr (q, m) ↦
            let (_, one, state, done) = sent_marked n s py hosts net w o renewal mark.result q m in
            let (es, t, le) = mark_network_started-starts n h (s.attempts marking) db state done in
            (es, t, omega (arith, one, subst (λ p. 1 ≤ starts p es) same le))
      ]

  pub dispatch-IsTraced :
      (h : ClaimHandle) (db : Db)
      → h.execution_plan_id ≡ o.plan_id
      → IsTraced o.plan_id db (dispatch n s py hosts net w o h db)
  unfolding dispatch
  dispatch-IsTraced h db same =
      let first = s.others renewing db in
      let renewal = renew n h s.claim_lease (s.attempts renewing) first.db in
      let h' = renewed_handle h renewal.result in
      let second = s.others marking renewal.db in
      let mark = mark_network_started n h' (s.attempts marking) second.db in
      let run = run_of n s py hosts net w o renewal.result mark.result in
      let later_same = renewed-plan h first.db same in
      let holder = if any is_refreshed run.log then h' else h in
      let held = if-plan o.plan_id n s (any is_refreshed run.log) h h' same later_same in
      reached-IsTraced o.plan_id n s run.log first second mark.db
        (λ d.
          noted_all (map called run.log)
            (finally_release n s holder (conclude n s run.result holder o.plan_id d)))
        (workers.at renewing db) (renew-Reaches n h s.claim_lease (s.attempts renewing) first.db)
        (workers.at marking renewal.db)
        (λ _.
          let (es, t, le) = mark_accounts h' renewal.result second.db later_same in
          after_run-IsTraced run.log run.result holder held t le)
        (λ e d.
          after_run-IsTraced run.log run.result holder held stop (
            omega
              (arith, unmarked_sends_nothing n s py hosts net w o renewal.result mark.result e)))
