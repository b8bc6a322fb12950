-- ===== src/Execution/Interleaving/Fencing.antt =====
-- Generations only grow, so a claim that was taken over stays lost.
use ai_api_security_platform.Prelude.{
  ℕ, ◌≡◌, ◌≤◌, ◌<◌, refl, inl, inr, sym, Bool, true, false, List, ◌∷◌, In, arith, subst, ap,
}
use ai_api_security_platform.Execution.Database.{Db}
use ai_api_security_platform.Execution.Claim.{
  ClaimHandle, is_current, acquire_statement, renew_statement, release_statement,
}
use ai_api_security_platform.Execution.Claim.Lease.{generation}
use ai_api_security_platform.Execution.Progress.{prepare_statement, mark_statement}
use ai_api_security_platform.Execution.Cancellation.{cancel_statement}
use ai_api_security_platform.Execution.Interleaving.{
  Event, claimed, Step, acquires, renews, releases, prepares, marks, cancels, records, Trace, stop,
  step,
}

generation-Step :
    (plan : ℕ) {e : Event} {db db' : Db} → Step e db db' → generation plan db ≤ generation plan db'
unfolding acquire_statement renew_statement release_statement prepare_statement mark_statement
    cancel_statement
generation-Step plan (acquires p owner lease t u e) = ground arith
generation-Step plan (renews h lease t u e) = ground arith
generation-Step plan (releases h t u e) = ground arith
generation-Step plan (prepares h t u e) = ground arith
generation-Step plan (marks h t u e) = ground arith
generation-Step plan (cancels p t u e) = ground arith
generation-Step plan (records h run t c n) = ground arith

generation-Trace :
    (plan : ℕ) {es : List Event} {db db' : Db}
    → Trace db es db'
    → generation plan db ≤ generation plan db'
generation-Trace plan stop = omega arith
generation-Trace plan (step s rest) =
    omega (arith, generation-Step plan s, generation-Trace plan rest)

current_at_generation :
    (h : ClaimHandle) (t : ℕ) (db : Db)
    → is_current h t db ≡ true
    → generation h.execution_plan_id db ≡ h.fencing_generation
unfolding is_current
current_at_generation h t db e = ground arith

-- Once the database has reached a higher generation than a handle's, the handle is current at no
-- later state and at no clock reading.
pub stale_forever :
    (h : ClaimHandle) (t : ℕ) {es : List Event} {db db' : Db}
    → h.fencing_generation < generation h.execution_plan_id db
    → Trace db es db'
    → is_current h t db' ≡ false
stale_forever h t {db' = db'} older trace = go (is_current h t db') refl
  where
    go : (b : Bool) → is_current h t db' ≡ b → is_current h t db' ≡ false
    go true e =
        absurd (
          omega
            (arith, current_at_generation h t db' e, generation-Trace h.execution_plan_id trace))
    go false e = e

claimed-generation :
    {h : ClaimHandle} {db db' : Db}
    → Step (claimed h) db db'
    → (generation h.execution_plan_id db < h.fencing_generation)
      × (h.fencing_generation ≤ generation h.execution_plan_id db')
unfolding acquire_statement
claimed-generation (acquires plan owner lease t u e) = ground arith

claimed_later :
    (h h' : ClaimHandle) {es : List Event} {db db' : Db}
    → h'.execution_plan_id ≡ h.execution_plan_id
    → In (claimed h') es
    → h.fencing_generation ≤ generation h.execution_plan_id db
    → Trace db es db'
    → h.fencing_generation < h'.fencing_generation
claimed_later h h' same m below stop = elim m [ ]
claimed_later h h' same (inl e) below (step {db = db} {d = d} s rest) =
    let grown = claimed-generation (subst (λ x. Step x db d) (sym e) s) in
    let here = ap (λ p. generation p db) same in omega (arith, grown, here)
claimed_later h h' same (inr m) below (step s rest) =
    claimed_later h h' same m (omega (arith, generation-Step h.execution_plan_id s)) rest

-- Of two claims on a plan the later has the higher generation, however many workers claim, renew and
-- release in between.
pub claims_increase :
    (h h' : ClaimHandle) {es : List Event} {db db' : Db}
    → h'.execution_plan_id ≡ h.execution_plan_id
    → In (claimed h') es
    → Trace db (claimed h ∷ es) db'
    → h.fencing_generation < h'.fencing_generation
claims_increase h h' same m (step s rest) = claimed_later h h' same m (claimed-generation s).1 rest
