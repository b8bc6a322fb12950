-- ===== src/Execution/Interleaving/Services.antt =====
-- The calls of the services are traces: each moves the tables by committed transactions of the step
-- relation, whatever becomes of its attempts.
use ai_api_security_platform.Prelude.{
  ℕ, ◌+◌, ◌≡◌, ◌≤◌, subst, Option, none, some, List, [], ◌∷◌, ◌++◌, Text, Result, ok, err, arith,
  ==_refl,
}
use ai_api_security_platform.Execution.Database.{
  Db, commit, Transaction, Attempt, Reply, retry, required, checked, otherwise,
}
use ai_api_security_platform.Execution.Retry.{Keeps, retry-Keeps, retry-Committed, db-required}
use ai_api_security_platform.Execution.Claim.{
  ClaimError, claim_lost, claim_unavailable, claim_coordination, ClaimHandle, Seconds, validate,
  acquire_statement, renew_statement, release_statement, released_statement, run, acquire, renew,
  release,
}
use ai_api_security_platform.Execution.Progress.{
  progress_coordination, ProgressState, prepare_statement, mark_statement, prepare_attempt,
  mark_network_started,
}
use ai_api_security_platform.Execution.Cancellation.{
  cancellation_coordination, read_statement, get_cancellation,
}
use ai_api_security_platform.Execution.Interleaving.{
  Event, started, Step, acquires, renews, releases, prepares, marks, Trace, stop, step, starts,
}

pub append-Trace :
    {es fs : List Event} {a b c : Db} → Trace a es b → Trace b fs c → Trace a (es ++ fs) c
append-Trace stop u = u
append-Trace (step s t) u = step s (append-Trace t u)

pub starts-append :
    (plan : ℕ) (es fs : List Event) → starts plan (es ++ fs) ≡ starts plan es + starts plan fs
starts-append plan [] fs = omega arith
starts-append plan (e ∷ es) fs = ground (arith, starts-append plan es fs)

-- Some sequence of steps leads to the tables.
abbrev pub Reaches : Db → Db → Type 0
Reaches a b = (es : List Event) × Trace a es b

Reaches-Step : {e : Event} {a b c : Db} → Reaches a b → Step e b c → Reaches a c
Reaches-Step (es, t) s = (_, append-Trace t (step s stop))

-- A transaction whose commits are steps.
record Steps {E R : Type 0} (stmt : Transaction E R) : Type 0 where
  pub at : (t u : ℕ) (db : Db) {r : R} {db' : Db} → stmt t u db ≡ commit r db' → Reaches db db'

Reaches-Reaches : {a b c : Db} → Reaches a b → Reaches b c → Reaches a c
Reaches-Reaches (es, t) (fs, u) = (_, append-Trace t u)

module _ {E R : Type 0} (stmt : Transaction E R) (steps : Steps stmt) where
  Steps-Keeps : (a : Db) → Keeps (Reaches a) stmt
  Steps-Keeps a = record { at = λ t u db e p. Reaches-Reaches p (steps.at t u db e) }

  retry-Reaches :
      (n : ℕ) (late : E) (env : List Attempt) (db : Db) → Reaches db (retry n late stmt env db).db
  retry-Reaches n late env db =
      retry-Keeps (Reaches db) stmt (Steps-Keeps db) n late env db ([], stop)

Reaches-refl : {a b : Db} → a ≡ b → Reaches a b
Reaches-refl {a = a} e = subst (Reaches a) e ([], stop)

-- A refused claim changes nothing.
acquire_statement-none :
    (plan : ℕ) (owner : Text) (m t u : ℕ) (db db' : Db)
    → acquire_statement plan owner m t u db ≡ commit none db'
    → db ≡ db'
unfolding acquire_statement
acquire_statement-none plan owner m t u db db' e = ground arith

acquire_statement-Steps : (plan : ℕ) (owner : Text) (m : ℕ) → Steps (acquire_statement plan owner m)
acquire_statement-Steps plan owner m = record { at = λ t u db {r} {db'} e. go t u db r db' e }
  where
    go :
        (t u : ℕ) (db : Db) (r : Option ClaimHandle) (db' : Db)
        → acquire_statement plan owner m t u db ≡ commit r db'
        → Reaches db db'
    go t u db none db' e = Reaches-refl (acquire_statement-none plan owner m t u db db' e)
    go t u db (some h) db' e = (_, step (acquires plan owner m t u e) stop)

renew_statement-Steps : (h : ClaimHandle) (m : ℕ) → Steps (renew_statement h m)
renew_statement-Steps h m = record { at = λ t u db e. (_, step (renews h m t u e) stop) }

release_statement-Steps : (h : ClaimHandle) → Steps (release_statement h)
release_statement-Steps h = record { at = λ t u db e. (_, step (releases h t u e) stop) }

released_statement-Steps : (h : ClaimHandle) → Steps (released_statement h)
unfolding released_statement
released_statement-Steps h = record {
  at = λ t u db {r} {db'} e. let same : db ≡ db' = ground arith in Reaches-refl same;
}

prepare_statement-Steps : (h : ClaimHandle) → Steps (prepare_statement h)
prepare_statement-Steps h = record { at = λ t u db e. (_, step (prepares h t u e) stop) }

mark_statement-Steps : (h : ClaimHandle) → Steps (mark_statement h)
mark_statement-Steps h = record { at = λ t u db e. (_, step (marks h t u e) stop) }

read_statement-Steps : (plan : ℕ) → Steps (read_statement plan)
unfolding read_statement
read_statement-Steps plan = record {
  at = λ t u db {r} {db'} e. let same : db ≡ db' = ground arith in Reaches-refl same;
}

checked-Reaches :
    {E A R : Type 0} (call : A → Reply E R) (env : List Attempt) (db : Db) (v : Result E A)
    → ((a : A) → Reaches db (call a).db)
    → Reaches db (checked call env db v).db
checked-Reaches call env db (err e) all = ([], stop)
checked-Reaches call env db (ok a) all = all a

module _ (n : ℕ) where
  required-Reaches :
      {R : Type 0} (stmt : Transaction ClaimError (Option R)) (steps : Steps stmt)
      (lost : ClaimError) (env : List Attempt) (db : Db)
      → Reaches db (required lost (run n stmt env db)).db
  unfolding run
  required-Reaches stmt steps lost env db =
      rw (db-required lost (retry n claim_coordination stmt env db))
        (retry-Reaches stmt steps n claim_coordination env db)

  pub acquire-Reaches :
      (plan : ℕ) (owner : Text) (lease : Seconds) (env : List Attempt) (db : Db)
      → Reaches db (acquire n plan owner lease env db).db
  unfolding acquire
  acquire-Reaches plan owner lease env db = checked-Reaches _ env db (validate owner lease) (λ m.
      required-Reaches (acquire_statement plan owner m) (acquire_statement-Steps plan owner m)
        claim_unavailable env db)

  pub renew-Reaches :
      (h : ClaimHandle) (lease : Seconds) (env : List Attempt) (db : Db)
      → Reaches db (renew n h lease env db).db
  unfolding renew
  renew-Reaches h lease env db =
      checked-Reaches _ env db (validate h.owner_id lease)
        (λ m. required-Reaches (renew_statement h m) (renew_statement-Steps h m) claim_lost env db)

  pub release-Reaches :
      (h : ClaimHandle) (env : List Attempt) (db : Db) → Reaches db (release n h env db).db
  unfolding release run
  release-Reaches h env db =
      let first = run n (release_statement h) env db in
      go first.rest first.db first.result (
        retry-Reaches (release_statement h) (release_statement-Steps h) n claim_coordination env db)
    where
      go :
          (rest : List Attempt) (d : Db) (r : Result ClaimError (Option ℕ))
          → Reaches db d
          → Reaches db
              (otherwise
                (λ rest d. required claim_lost (run n (released_statement h) rest d))
                rest
                d
                r).db
      go rest d (err e) reached = reached
      go rest d (ok none) reached =
          Reaches-Reaches reached
            (required-Reaches (released_statement h) (released_statement-Steps h) claim_lost rest d)
      go rest d (ok (some x)) reached = reached

  pub prepare_attempt-Reaches :
      (h : ClaimHandle) (env : List Attempt) (db : Db) → Reaches db (prepare_attempt n h env db).db
  unfolding prepare_attempt
  prepare_attempt-Reaches h env db =
      retry-Reaches (prepare_statement h) (prepare_statement-Steps h) n progress_coordination env db

  pub get_cancellation-Reaches :
      (plan : ℕ) (env : List Attempt) (db : Db) → Reaches db (get_cancellation n plan env db).db
  unfolding get_cancellation
  get_cancellation-Reaches plan env db =
      retry-Reaches (read_statement plan) (read_statement-Steps plan) n cancellation_coordination
        env db

  pub mark_network_started-Reaches :
      (h : ClaimHandle) (env : List Attempt) (db : Db)
      → Reaches db (mark_network_started n h env db).db
  unfolding mark_network_started
  mark_network_started-Reaches h env db =
      retry-Reaches (mark_statement h) (mark_statement-Steps h) n progress_coordination env db

  -- A mark that succeeds has started the plan.
  pub mark_network_started-starts :
      (h : ClaimHandle) (env : List Attempt) (db : Db) (s : ProgressState)
      → (mark_network_started n h env db).result ≡ ok s
      → (es : List Event) × Trace db es (mark_network_started n h env db).db
        × (1 ≤ starts h.execution_plan_id es)
  unfolding mark_network_started
  mark_network_started-starts h env db s e =
      let done =
        retry-Committed (Reaches db) (mark_statement h)
          (Steps-Keeps (mark_statement h) (mark_statement-Steps h) db) n progress_coordination env
          db s ([], stop) e in
      let (es, t) = done.holds_before in
      (
        es ++ started h.execution_plan_id ∷ [],
        append-Trace t (step (marks h done.at done.stamp done.committed) stop),
        ground (
          arith,
          starts-append h.execution_plan_id es (started h.execution_plan_id ∷ []),
          ==_refl h.execution_plan_id,
        ),
      )
