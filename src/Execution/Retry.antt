-- ===== src/Execution/Retry.antt =====
-- Rules for the retry loop of Execution/Database.
use ai_api_security_platform.Prelude.{
  ℕ, zero, suc, ◌≡◌, refl, List, [], ◌∷◌, Result, ok, err, arith, All, Option, some, ◌⊎◌, inl, inr,
}
use ai_api_security_platform.Execution.Database.{
  Db, Outcome, exception, raise, commit, Transaction, Attempt, aborted, unacknowledged,
  acknowledged, Reply, after_lost, after_acknowledged, retry, required, checked,
}

-- What every transaction keeps, the loop keeps, whatever the attempts come to.
pub record Keeps {E R : Type 0} (P : Db → Type 0) (stmt : Transaction E R) : Type 0 where
  pub at : (t u : ℕ) (db : Db) {r : R} {db' : Db} → stmt t u db ≡ commit r db' → P db → P db'

-- The transaction that the caller was told of.
pub record Committed {E R : Type 0} (P : Db → Type 0) (stmt : Transaction E R) (r : R) (db' : Db)
    : Type 0 where
  pub at : ℕ
  pub stamp : ℕ
  pub before : Db
  pub holds_before : P before
  pub committed : stmt at stamp before ≡ commit r db'

module _ {E R : Type 0} (P : Db → Type 0) (stmt : Transaction E R) (keeps : Keeps P stmt) where
  lost-Keeps :
      (again : Db → Reply E R)
      → ((d : Db) → P d → P (again d).db)
      → (t u : ℕ) (env : List Attempt) (db : Db) (o : Outcome E R) → stmt t u db ≡ o
      → P db
      → P (after_lost again env db o).db
  lost-Keeps again ih t u env db exception e p = ih db p
  lost-Keeps again ih t u env db (raise x) e p = p
  lost-Keeps again ih t u env db (commit r db') e p = ih db' (keeps.at t u db e p)

  acknowledged-Keeps :
      (again : Db → Reply E R)
      → ((d : Db) → P d → P (again d).db)
      → (t u : ℕ) (env : List Attempt) (db : Db) (o : Outcome E R) → stmt t u db ≡ o
      → P db
      → P (after_acknowledged again env db o).db
  acknowledged-Keeps again ih t u env db exception e p = ih db p
  acknowledged-Keeps again ih t u env db (raise x) e p = p
  acknowledged-Keeps again ih t u env db (commit r db') e p = keeps.at t u db e p

  pub retry-Keeps :
      (n : ℕ) (late : E) (env : List Attempt) (db : Db) → P db → P (retry n late stmt env db).db
  unfolding retry
  retry-Keeps zero late env db p = p
  retry-Keeps (suc n) late [] db p = p
  retry-Keeps (suc n) late (aborted ∷ env) db p = retry-Keeps n late env db p
  retry-Keeps (suc n) late (unacknowledged t u ∷ env) db p =
      lost-Keeps (retry n late stmt env) (retry-Keeps n late env) t u env db (stmt t u db) refl p
  retry-Keeps (suc n) late (acknowledged t u ∷ env) db p =
      acknowledged-Keeps (retry n late stmt env) (retry-Keeps n late env) t u env db (stmt t u db)
        refl p

  -- A successful reply is that of a committed transaction, from tables that satisfy `P`.
  lost-Committed :
      (again : Db → Reply E R)
      → ((d : Db) (r : R) → P d → (again d).result ≡ ok r → Committed P stmt r (again d).db)
      → (t u : ℕ) (env : List Attempt) (db : Db) (o : Outcome E R) (r : R) → stmt t u db ≡ o
      → P db
      → (after_lost again env db o).result ≡ ok r
      → Committed P stmt r (after_lost again env db o).db
  lost-Committed again ih t u env db exception r e p h = ih db r p h
  lost-Committed again ih t u env db (raise x) r e p h = cc
  lost-Committed again ih t u env db (commit r' db') r e p h = ih db' r (keeps.at t u db e p) h

  acknowledged-Committed :
      (again : Db → Reply E R)
      → ((d : Db) (r : R) → P d → (again d).result ≡ ok r → Committed P stmt r (again d).db)
      → (t u : ℕ) (env : List Attempt) (db : Db) (o : Outcome E R) (r : R) → stmt t u db ≡ o
      → P db
      → (after_acknowledged again env db o).result ≡ ok r
      → Committed P stmt r (after_acknowledged again env db o).db
  acknowledged-Committed again ih t u env db exception r e p h = ih db r p h
  acknowledged-Committed again ih t u env db (raise x) r e p h = cc
  acknowledged-Committed again ih t u env db (commit r' db') r e p h = record {
    at = t;
    stamp = u;
    before = db;
    holds_before = p;
    committed = cc;
  }

  pub retry-Committed :
      (n : ℕ) (late : E) (env : List Attempt) (db : Db) (r : R)
      → P db
      → (retry n late stmt env db).result ≡ ok r
      → Committed P stmt r (retry n late stmt env db).db
  unfolding retry
  retry-Committed zero late env db r p h = cc
  retry-Committed (suc n) late [] db r p h = cc
  retry-Committed (suc n) late (aborted ∷ env) db r p h = retry-Committed n late env db r p h
  retry-Committed (suc n) late (unacknowledged t u ∷ env) db r p h =
      lost-Committed (retry n late stmt env) (retry-Committed n late env) t u env db (stmt t u db) r
        refl p h
  retry-Committed (suc n) late (acknowledged t u ∷ env) db r p h =
      acknowledged-Committed (retry n late stmt env) (retry-Committed n late env) t u env db
        (stmt t u db) r refl p h

module _ {E R : Type 0} where
  -- At each of its readings the transaction does `o` to these tables.
  abbrev pub Always : Transaction E R → Db → Outcome E R → Attempt → Type 0
  Always stmt db o aborted = Unit
  Always stmt db o (unacknowledged t u) = stmt t u db ≡ o
  Always stmt db o (acknowledged t u) = stmt t u db ≡ o

  -- A transaction that finds nothing to do answers so, or the attempts run out.
  pub retry_idle :
      (n : ℕ) (late : E) (stmt : Transaction E R) (env : List Attempt) (db : Db) (r : R)
      → All (Always stmt db (commit r db)) env
      → ((retry n late stmt env db).db ≡ db)
        × (((retry n late stmt env db).result ≡ ok r)
            ⊎ ((retry n late stmt env db).result ≡ err late))
  unfolding retry
  retry_idle zero late stmt env db r h = (refl, inr refl)
  retry_idle (suc n) late stmt [] db r h = (refl, inr refl)
  retry_idle (suc n) late stmt (aborted ∷ env) db r h = retry_idle n late stmt env db r h.1
  retry_idle (suc n) late stmt (unacknowledged t u ∷ env) db r h =
      rw h.0 (retry_idle n late stmt env db r h.1)
  retry_idle (suc n) late stmt (acknowledged t u ∷ env) db r h = rw h.0 (refl, inl refl)

module _ {E R : Type 0} (lost : E) (r : Reply E (Option R)) where
  pub db-required : (required lost r).db ≡ r.db
  db-required = ground arith

  pub required-ok : (x : R) → (required lost r).result ≡ ok x → r.result ≡ ok (some x)
  required-ok x h = ground arith

-- A checked call that succeeds is the call at an argument that passed.
pub record Passed {E A R : Type 0} (call : A → Reply E R) (v : Result E A) (x : R) (db' : Db)
    : Type 0 where
  pub value : A
  pub valid : v ≡ ok value
  pub called : (call value).result ≡ ok x
  pub same_db : (call value).db ≡ db'

pub checked-Passed :
    {E A R : Type 0} (call : A → Reply E R) (env : List Attempt) (db : Db) (v : Result E A) (x : R)
    → (checked call env db v).result ≡ ok x
    → Passed call v x (checked call env db v).db
checked-Passed call env db (err e) x h = cc
checked-Passed call env db (ok a) x h = record {
  value = a;
  valid = refl;
  called = h;
  same_db = refl;
}

-- A successful reply to a required row is a committed transaction that returned the row.
pub required-Committed :
    {E R : Type 0} (P : Db → Type 0) (stmt : Transaction E (Option R))
    → Keeps P stmt
    → (n : ℕ) (late lost : E) (env : List Attempt) (db : Db) (x : R) → P db
    → (required lost (retry n late stmt env db)).result ≡ ok x
    → Committed P stmt (some x) (required lost (retry n late stmt env db)).db
required-Committed P stmt keeps n late lost env db x p h =
    rw (db-required lost (retry n late stmt env db)) (
      retry-Committed P stmt keeps n late env db (some x) p
        (required-ok lost (retry n late stmt env db) x h))
