-- ===== src/Execution/Claim/Release.antt =====
-- A release frees the plan, and an unacknowledged release can be repeated.
use ai_api_security_platform.Prelude.{
  ℕ, suc, ◌≡◌, refl, true, Option, none, some, List, ◌∷◌, Result, ok, err, arith,
}
use ai_api_security_platform.Execution.Database.{
  ClaimRow, Db, put, commit, Transaction, Attempt, unacknowledged, acknowledged, replied, retry,
  required, otherwise,
}
use ai_api_security_platform.Execution.Retry.{Keeps, retry-Committed, required-Committed}
use ai_api_security_platform.Execution.Claim.{
  ClaimError, claim_lost, claim_coordination, ClaimHandle, holds, release_statement,
  released_statement, run, release,
}

-- The plan is unowned, at the handle's generation.
abbrev pub IsFreed : ClaimHandle → Db → Type 0
IsFreed h db =
    (row : ClaimRow) × (db.claims h.execution_plan_id ≡ some row)
    × (row.owner_id ≡ none)
    × (row.fencing_generation ≡ h.fencing_generation)

release_statement-IsFreed :
    (h : ClaimHandle) (t u : ℕ) (db db' : Db) (plan : ℕ)
    → release_statement h t u db ≡ commit (some plan) db'
    → IsFreed h db'
unfolding release_statement
release_statement-IsFreed h t u db db' plan e = go (db.claims h.execution_plan_id) refl
  where
    go : (o : Option ClaimRow) → db.claims h.execution_plan_id ≡ o → IsFreed h db'
    go none c = ground arith
    go (some row) c =
        (record row { owner_id = none; lease_expires_at = t }, ground arith, refl, ground arith)

released_statement-IsFreed :
    (h : ClaimHandle) (t u : ℕ) (db db' : Db) (plan : ℕ)
    → released_statement h t u db ≡ commit (some plan) db'
    → IsFreed h db'
unfolding released_statement
released_statement-IsFreed h t u db db' plan e = go (db.claims h.execution_plan_id) refl
  where
    go : (o : Option ClaimRow) → db.claims h.execution_plan_id ≡ o → IsFreed h db'
    go none c = ground arith
    go (some row) c = (row, ground arith, ground arith, ground arith)

anything : {stmt : Transaction ClaimError (Option ℕ)} → Keeps (λ _. Unit {0}) stmt
anything = record { at = λ t u db e p. tt }

module _ (max_retries : ℕ) (h : ClaimHandle) where
  second-IsFreed :
      (env : List Attempt) (db : Db) (plan : ℕ)
      → (required claim_lost (run max_retries (released_statement h) env db)).result ≡ ok plan
      → IsFreed h (required claim_lost (run max_retries (released_statement h) env db)).db
  unfolding run
  second-IsFreed env db plan e =
      let done =
        required-Committed (λ _. Unit {0}) (released_statement h) anything max_retries
          claim_coordination claim_lost env db plan tt e in
      released_statement-IsFreed h done.at done.stamp done.before _ plan done.committed

  otherwise-IsFreed :
      (env : List Attempt) (db : Db) (r : Result ClaimError (Option ℕ)) (plan : ℕ)
      → ((p : ℕ) → r ≡ ok (some p) → IsFreed h db)
      → let second = λ (rest : List Attempt) (d : Db).
        required claim_lost (run max_retries (released_statement h) rest d) in
        (otherwise second env db r).result ≡ ok plan → IsFreed h (otherwise second env db r).db
  otherwise-IsFreed env db (err x) plan first e = cc
  otherwise-IsFreed env db (ok none) plan first e = second-IsFreed env db plan e
  otherwise-IsFreed env db (ok (some p)) plan first e = first p refl

  -- A release that succeeds leaves the plan free at the handle's generation, whether it is this call
  -- or an earlier unacknowledged one that freed it.
  pub release-IsFreed :
      (env : List Attempt) (db : Db) (plan : ℕ)
      → (release max_retries h env db).result ≡ ok plan
      → IsFreed h (release max_retries h env db).db
  unfolding release
  release-IsFreed env db plan e =
      let first = retry max_retries claim_coordination (release_statement h) env db in
      otherwise-IsFreed first.rest first.db first.result plan
        (λ p q.
          let done =
            retry-Committed (λ _. Unit {0}) (release_statement h) anything max_retries
              claim_coordination env db (some p) tt q in
          release_statement-IsFreed h done.at done.stamp done.before _ p done.committed)
        e

abbrev freed : ClaimHandle → ClaimRow → ℕ → Db → Db
freed h row t db = record db {
  claims = put db.claims h.execution_plan_id (record row { owner_id = none; lease_expires_at = t });
}

module _ (h : ClaimHandle) (row : ClaimRow) (db : Db) (t : ℕ) where
  release_statement_held :
      (u : ℕ)
      → db.claims h.execution_plan_id ≡ some row
      → holds h row ≡ true
      → release_statement h t u db ≡ commit (some h.execution_plan_id) (freed h row t db)
  unfolding release_statement
  release_statement_held u c held = ground arith

  release_statement_again :
      (t' u' : ℕ) → release_statement h t' u' (freed h row t db) ≡ commit none (freed h row t db)
  unfolding release_statement
  release_statement_again t' u' = ground arith

  released_statement_after :
      (t' u' : ℕ)
      → holds h row ≡ true
      → released_statement h t' u' (freed h row t db)
        ≡ commit (some h.execution_plan_id) (freed h row t db)
  unfolding released_statement
  released_statement_after t' u' held = ground arith

  -- The acknowledgement of the release is lost: the next attempt finds no row to update, the second
  -- query finds the freed row, and the release succeeds.
  pub release_unacknowledged :
      (n u t' u' t'' u'' : ℕ) (rest : List Attempt)
      → db.claims h.execution_plan_id ≡ some row
      → holds h row ≡ true
      → release
          (suc (suc n))
          h
          (unacknowledged t u ∷ acknowledged t' u' ∷ acknowledged t'' u'' ∷ rest)
          db
        ≡ replied (ok h.execution_plan_id) rest (freed h row t db)
  unfolding release
  release_unacknowledged n u t' u' t'' u'' rest c held =
      rw (release_statement_held u c held)
        (rw (release_statement_again t' u') (rw (released_statement_after t'' u'' held)))
