-- ===== src/Execution/Claim/Lease.antt =====
-- What the claim service promises: a granted lease is current and carries a new generation, a live
-- lease of another owner excludes, a renewal keeps the generation.
use ai_api_security_platform.Prelude.{
  ℕ, ◌+◌, ◌≡◌, ◌≢◌, ◌∙◌, refl, sym, ◌≤◌, ◌<◌, true, none, some, List, [], ◌∷◌, Text, =ₜ_refl,
  Result, ok, err, All, arith,
}
use ai_api_security_platform.Execution.Database.{
  ClaimRow, Db, commit, Attempt, aborted, unacknowledged, acknowledged, retry, required, checked,
}
use ai_api_security_platform.Execution.Retry.{
  Keeps, Always, retry_idle, db-required, required-ok, checked-Passed, required-Committed,
}
use ai_api_security_platform.Execution.Claim.{
  ClaimError, claim_unavailable, claim_lost, claim_coordination, ClaimHandle, Seconds,
  make_interval, validate, is_current, acquire_statement, renew_statement, run, acquire, renew,
}

-- The generation that the database has reached for a plan; 0 before the first claim.
abbrev pub generation : ℕ → Db → ℕ
generation plan db = elim (db.claims plan) [ none ↦ 0 | some row ↦ row.fencing_generation ]

validate_interval :
    (owner : Text) (lease : Seconds) (m : ℕ) → validate owner lease ≡ ok m → make_interval lease ≡ m
unfolding validate
validate_interval owner lease m h = ground arith

acquire_statement-Keeps :
    (plan : ℕ) (owner : Text) (m g p : ℕ)
    → Keeps (λ d. g ≤ generation p d) (acquire_statement plan owner m)
unfolding acquire_statement
acquire_statement-Keeps plan owner m g p = record { at = λ t u db e h. ground arith }

acquire_statement_granted :
    (plan : ℕ) (owner : Text) (m t u now : ℕ) (db db' : Db) (h : ClaimHandle)
    → now < h.lease_expires_at
    → acquire_statement plan owner m t u db ≡ commit (some h) db'
    → (h.execution_plan_id ≡ plan)
      × (h.owner_id ≡ owner)
      × (h.lease_expires_at ≡ h.database_now + m)
      × (is_current h now db' ≡ true)
      × (generation plan db < h.fencing_generation)
unfolding acquire_statement is_current
acquire_statement_granted plan owner m t u now db db' h early e = ground (arith, =ₜ_refl owner)

module _ (max_retries plan : ℕ) (owner : Text) (lease : Seconds) (env : List Attempt)
    (db : Db) where
  -- A lease that is granted, after any number of failed and unacknowledged attempts, is the caller's,
  -- ends the interval of the request after the time when it was given, is current in the database at
  -- any time before it ends, and has a higher generation than the plan had.
  pub acquire_granted :
      (h : ClaimHandle) (now : ℕ)
      → (acquire max_retries plan owner lease env db).result ≡ ok h
      → now < h.lease_expires_at
      → (h.execution_plan_id ≡ plan)
        × (h.owner_id ≡ owner)
        × (h.lease_expires_at ≡ h.database_now + make_interval lease)
        × (is_current h now (acquire max_retries plan owner lease env db).db ≡ true)
        × (generation plan db < h.fencing_generation)
  unfolding acquire
  acquire_granted h now e early =
      let passed = checked-Passed _ env db (validate owner lease) h e in
      let done =
        required-Committed (λ d. generation plan db ≤ generation plan d)
          (acquire_statement plan owner passed.value)
          (acquire_statement-Keeps plan owner passed.value (generation plan db) plan) max_retries
          claim_coordination claim_unavailable env db h (omega arith) passed.called in
      let facts =
        acquire_statement_granted plan owner passed.value done.at done.stamp now done.before _ h
          early done.committed in
      let asked = validate_interval owner lease passed.value passed.valid in
      (
        facts.0,
        facts.1,
        omega (arith, facts.2, asked),
        rw (← passed.same_db) facts.3,
        omega (arith, done.holds_before, facts.4),
      )

  acquire_statement_plan :
      (m t u : ℕ) (d d' : Db) (h : ClaimHandle)
      → acquire_statement plan owner m t u d ≡ commit (some h) d'
      → h.execution_plan_id ≡ plan
  unfolding acquire_statement
  acquire_statement_plan m t u d d' h e = ground arith

  pub acquire-plan :
      (h : ClaimHandle)
      → (acquire max_retries plan owner lease env db).result ≡ ok h
      → h.execution_plan_id ≡ plan
  unfolding acquire
  acquire-plan h e =
      let passed = checked-Passed _ env db (validate owner lease) h e in
      let done =
        required-Committed (λ d. generation plan db ≤ generation plan d)
          (acquire_statement plan owner passed.value)
          (acquire_statement-Keeps plan owner passed.value (generation plan db) plan) max_retries
          claim_coordination claim_unavailable env db h (omega arith) passed.called in
      acquire_statement_plan passed.value done.at done.stamp done.before _ h done.committed

-- The readings of the database clock are all before a time.
abbrev pub Before : ℕ → Attempt → Type 0
Before limit aborted = Unit
Before limit (unacknowledged t u) = t < limit
Before limit (acknowledged t u) = t < limit

module _ (plan : ℕ) (owner : Text) (db : Db) (row : ClaimRow) (holder : Text) where
  acquire_statement_busy :
      (m t u : ℕ)
      → db.claims plan ≡ some row
      → row.owner_id ≡ some holder
      → t < row.lease_expires_at
      → acquire_statement plan owner m t u db ≡ commit none db
  unfolding acquire_statement
  acquire_statement_busy m t u e o h = ground arith

  acquire_statement-Always :
      (m : ℕ) (env : List Attempt)
      → db.claims plan ≡ some row
      → row.owner_id ≡ some holder
      → All (Before row.lease_expires_at) env
      → All (Always (acquire_statement plan owner m) db (commit none db)) env
  acquire_statement-Always m [] e o h = tt
  acquire_statement-Always m (aborted ∷ env) e o h = (tt, acquire_statement-Always m env e o h.1)
  acquire_statement-Always m (unacknowledged t u ∷ env) e o h =
      (acquire_statement_busy m t u e o h.0, acquire_statement-Always m env e o h.1)
  acquire_statement-Always m (acknowledged t u ∷ env) e o h =
      (acquire_statement_busy m t u e o h.0, acquire_statement-Always m env e o h.1)

  -- While the lease of a claim runs, no attempt at that plan succeeds or changes a table, the
  -- holder's own included.
  pub acquire_excluded :
      (max_retries : ℕ) (lease : Seconds) (env : List Attempt)
      → db.claims plan ≡ some row
      → row.owner_id ≡ some holder
      → All (Before row.lease_expires_at) env
      → ((acquire max_retries plan owner lease env db).db ≡ db)
        × ((h : ClaimHandle) → (acquire max_retries plan owner lease env db).result ≢ ok h)
  unfolding acquire
  acquire_excluded n lease env e o before = go (validate owner lease)
    where
      go :
          (v : Result ClaimError ℕ)
          → let r =
              checked
                (λ m. required claim_unavailable (run n (acquire_statement plan owner m) env db))
                env
                db
                v in
            (r.db ≡ db) × ((h : ClaimHandle) → r.result ≢ ok h)
      go (err x) = (refl, λ h p. cc)
      go (ok m) =
          let idle =
            retry_idle n claim_coordination (acquire_statement plan owner m) env db none
              (acquire_statement-Always m env e o before) in
          (
            db-required claim_unavailable _ ∙ idle.0,
            λ h p. ground (
              arith,
              idle.1,
              required-ok claim_unavailable
                  (retry n claim_coordination (acquire_statement plan owner m) env db) h p,
            ),
          )

is_current-generation :
    (h : ClaimHandle) (t : ℕ) (db : Db)
    → is_current h t db ≡ true
    → generation h.execution_plan_id db ≡ h.fencing_generation
unfolding is_current
is_current-generation h t db e = ground arith

renew_statement-Keeps :
    (h : ClaimHandle) (m g p : ℕ) → Keeps (λ d. generation p d ≡ g) (renew_statement h m)
unfolding renew_statement
renew_statement-Keeps h m g p = record { at = λ t u db e q. ground arith }

renew_statement_granted :
    (h : ClaimHandle) (m t u now : ℕ) (db db' : Db) (h' : ClaimHandle)
    → now < h'.lease_expires_at
    → renew_statement h m t u db ≡ commit (some h') db'
    → (h'.execution_plan_id ≡ h.execution_plan_id)
      × (h'.owner_id ≡ h.owner_id)
      × (h'.fencing_generation ≡ h.fencing_generation)
      × (is_current h t db ≡ true)
      × (is_current h' now db' ≡ true)
      × (h'.lease_expires_at ≡ h'.database_now + m)
unfolding renew_statement is_current
renew_statement_granted h m t u now db db' h' early e = ground (arith, =ₜ_refl h.owner_id)

renew_statement_plan :
    (h : ClaimHandle) (m t u : ℕ) (db db' : Db) (h' : ClaimHandle)
    → renew_statement h m t u db ≡ commit (some h') db'
    → h'.execution_plan_id ≡ h.execution_plan_id
unfolding renew_statement
renew_statement_plan h m t u db db' h' e = ground arith

module _ (max_retries : ℕ) (h : ClaimHandle) (lease : Seconds) (env : List Attempt) (db : Db) where
  pub renew-plan :
      (h' : ClaimHandle)
      → (renew max_retries h lease env db).result ≡ ok h'
      → h'.execution_plan_id ≡ h.execution_plan_id
  unfolding renew
  renew-plan h' e =
      let g = generation h.execution_plan_id db in
      let passed = checked-Passed _ env db (validate h.owner_id lease) h' e in
      let done =
        required-Committed (λ d. generation h.execution_plan_id d ≡ g)
          (renew_statement h passed.value)
          (renew_statement-Keeps h passed.value g h.execution_plan_id) max_retries
          claim_coordination claim_lost env db h' refl passed.called in
      renew_statement_plan h passed.value done.at done.stamp done.before _ h' done.committed

  -- A renewal succeeds only for a plan at the handle's generation; it keeps plan, owner and
  -- generation, and the new handle ends the interval of the request after the time when it was given
  -- and is current in the database at any time before it ends.
  pub renew_granted :
      (h' : ClaimHandle) (now : ℕ)
      → (renew max_retries h lease env db).result ≡ ok h'
      → now < h'.lease_expires_at
      → (h'.execution_plan_id ≡ h.execution_plan_id)
        × (h'.owner_id ≡ h.owner_id)
        × (h'.fencing_generation ≡ h.fencing_generation)
        × (generation h.execution_plan_id db ≡ h.fencing_generation)
        × (h'.lease_expires_at ≡ h'.database_now + make_interval lease)
        × (is_current h' now (renew max_retries h lease env db).db ≡ true)
  unfolding renew
  renew_granted h' now e early =
      let g = generation h.execution_plan_id db in
      let passed = checked-Passed _ env db (validate h.owner_id lease) h' e in
      let done =
        required-Committed (λ d. generation h.execution_plan_id d ≡ g)
          (renew_statement h passed.value)
          (renew_statement-Keeps h passed.value g h.execution_plan_id) max_retries
          claim_coordination claim_lost env db h' refl passed.called in
      let facts =
        renew_statement_granted h passed.value done.at done.stamp now done.before _ h' early
          done.committed in
      let asked = validate_interval h.owner_id lease passed.value passed.valid in
      (
        facts.0,
        facts.1,
        facts.2,
        sym done.holds_before ∙ is_current-generation h done.at done.before facts.3,
        omega (arith, facts.5, asked),
        rw (← passed.same_db) facts.4,
      )
