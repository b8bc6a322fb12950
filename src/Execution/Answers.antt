-- ===== src/Execution/Answers.antt =====
-- The attempt that a successful reply of the retry loop comes from.
use ai_api_security_platform.Prelude.{
  ℕ, zero, suc, ◌≡◌, refl, ap, ◌∙◌, In, ok-injective, List, [], ◌∷◌, ok, inl, inr,
}
use ai_api_security_platform.Execution.Database.{
  Db, Outcome, exception, raise, commit, Transaction, Attempt, aborted, unacknowledged,
  acknowledged, Reply, after_lost, after_acknowledged, retry,
}

-- A successful reply is that of one of the attempts, which was acknowledged.
pub record IsAnswered {E R : Type 0} (stmt : Transaction E R) (env : List Attempt) (r : R)
    (db' : Db) : Type 0 where
  pub at : ℕ
  pub stamp : ℕ
  pub before : Db
  pub attempted : In (acknowledged at stamp) env
  pub committed : stmt at stamp before ≡ commit r db'

module _ {E R : Type 0} (stmt : Transaction E R) where
  later-IsAnswered :
      (a : Attempt) {env : List Attempt} {r : R} {db' : Db}
      → IsAnswered stmt env r db'
      → IsAnswered stmt (a ∷ env) r db'
  later-IsAnswered a c = record {
    at = c.at;
    stamp = c.stamp;
    before = c.before;
    attempted = inr c.attempted;
    committed = c.committed;
  }

  lost-IsAnswered :
      (again : Db → Reply E R) (a : Attempt) (env : List Attempt) (db : Db) (o : Outcome E R)
      (r : R)
      → ((d : Db) → (again d).result ≡ ok r → IsAnswered stmt env r (again d).db)
      → (after_lost again env db o).result ≡ ok r
      → IsAnswered stmt (a ∷ env) r (after_lost again env db o).db
  lost-IsAnswered again a env db exception r ih h = later-IsAnswered a (ih db h)
  lost-IsAnswered again a env db (raise x) r ih h = cc
  lost-IsAnswered again a env db (commit r' db') r ih h = later-IsAnswered a (ih db' h)

  acknowledged-IsAnswered :
      (again : Db → Reply E R) (t u : ℕ) (env : List Attempt) (db : Db) (o : Outcome E R) (r : R)
      → stmt t u db ≡ o
      → ((d : Db) → (again d).result ≡ ok r → IsAnswered stmt env r (again d).db)
      → (after_acknowledged again env db o).result ≡ ok r
      → IsAnswered stmt (acknowledged t u ∷ env) r (after_acknowledged again env db o).db
  acknowledged-IsAnswered again t u env db exception r e ih h = later-IsAnswered _ (ih db h)
  acknowledged-IsAnswered again t u env db (raise x) r e ih h = cc
  acknowledged-IsAnswered again t u env db (commit r' db') r e ih h = record {
    at = t;
    stamp = u;
    before = db;
    attempted = inl refl;
    committed = e ∙ ap (λ x. commit x db') (ok-injective h);
  }

  pub retry-IsAnswered :
      (n : ℕ) (late : E) (env : List Attempt) (db : Db) (r : R)
      → (retry n late stmt env db).result ≡ ok r
      → IsAnswered stmt env r (retry n late stmt env db).db
  unfolding retry
  retry-IsAnswered zero late env db r h = cc
  retry-IsAnswered (suc n) late [] db r h = cc
  retry-IsAnswered (suc n) late (aborted ∷ env) db r h =
      later-IsAnswered aborted (retry-IsAnswered n late env db r h)
  retry-IsAnswered (suc n) late (unacknowledged t u ∷ env) db r h =
      lost-IsAnswered (retry n late stmt env) (unacknowledged t u) env db (stmt t u db) r
        (λ d q. retry-IsAnswered n late env d r q) h
  retry-IsAnswered (suc n) late (acknowledged t u ∷ env) db r h =
      acknowledged-IsAnswered (retry n late stmt env) t u env db (stmt t u db) r refl
        (λ d q. retry-IsAnswered n late env d r q) h
