-- ===== src/Execution/Database.antt =====
-- The tables that the execution services share (backend/app/db/models/execution_plan_claim.py,
-- execution_plan_progress.py, execution_plan_cancellation.py), and the retry loop that each service
-- runs its transactions in. PostgreSQL itself is not modelled: a transaction is one atomic function
-- of the tables and of its readings of `clock_timestamp()`.
use ai_api_security_platform.Prelude.{
  ℕ, zero, suc, ◌==◌, Bool, Option, none, some, List, [], ◌∷◌, Text, Result, ok, err, if◌then◌else◌,
}

-- A row of execution_plan_claims; times are in microseconds.
pub record ClaimRow : Type 0 where
  pub owner_id : Option Text
  pub fencing_generation : ℕ
  pub lease_expires_at : ℕ

pub data Phase : Type 0 where
  pre_network network_started in_doubt : Phase

pub record ProgressRow : Type 0 where
  pub fencing_generation : ℕ
  pub phase : Phase
  pub updated_at : ℕ

abbrev pub Table {ℓ} : Type ℓ → Type ℓ
Table R = ℕ → Option R

module _ {ℓ} {R : Type ℓ} where
  abbrev pub put : Table R → ℕ → R → Table R
  put t k r = λ j. if k == j then some r else t j

-- The tables are keyed by the plan; `plans` says which plans exist, and `runs` holds the canonical
-- result (`test_runs.execution_plan_id` is unique).
pub record Db : Type 0 where
  pub plans : ℕ → Bool
  pub claims : Table ClaimRow
  pub progress : Table ProgressRow
  pub cancellations : Table ℕ
  pub runs : Table ℕ

-- What one transaction does: an exception that the retry loop swallows, an exception that it lets
-- through (both roll back), or a commit.
pub data Outcome {ℓ κ} (E : Type ℓ) (R : Type κ) : Type (ℓ ⊔ κ) where
  exception : Outcome E R
  raise : E → Outcome E R
  commit : R → Db → Outcome E R

-- The two times are two readings of the database clock, in their order in the transaction.
abbrev pub Transaction {ℓ κ} : Type ℓ → Type κ → Type (ℓ ⊔ κ)
Transaction E R = ℕ → ℕ → Db → Outcome E R

-- What the network and the database make of one attempt: nothing is committed; it is committed and
-- the acknowledgement is lost; it is committed and acknowledged.
pub data Attempt : Type 0 where
  aborted : Attempt
  unacknowledged : ℕ → ℕ → Attempt
  acknowledged : ℕ → ℕ → Attempt

-- A call's result, the attempts that are left for later calls, and the tables.
pub record Reply {ℓ κ} (E : Type ℓ) (R : Type κ) : Type (ℓ ⊔ κ) where
  pub result : Result E R
  pub rest : List Attempt
  pub db : Db

module _ {ℓ κ} {E : Type ℓ} {R : Type κ} where
  abbrev pub replied : Result E R → List Attempt → Db → Reply E R
  replied r env db = record { result = r; rest = env; db = db }

  -- An attempt that was committed or not, and not acknowledged: `except Exception: continue`.
  abbrev pub after_lost : (Db → Reply E R) → List Attempt → Db → Outcome E R → Reply E R
  after_lost again env db exception = again db
  after_lost again env db (raise e) = replied (err e) env db
  after_lost again env db (commit r db') = again db'

  abbrev pub after_acknowledged : (Db → Reply E R) → List Attempt → Db → Outcome E R → Reply E R
  after_acknowledged again env db exception = again db
  after_acknowledged again env db (raise e) = replied (err e) env db
  after_acknowledged again env db (commit r db') = replied (ok r) env db'

  -- `for _ in range(max_retries): try: ... except Exception: continue`, then the coordination error.
  -- A list of attempts that ends stands for a database that answers no more.
  unfoldable pub retry : ℕ → E → Transaction E R → List Attempt → Db → Reply E R
  retry zero late stmt env db = replied (err late) env db
  retry (suc n) late stmt [] db = replied (err late) [] db
  retry (suc n) late stmt (aborted ∷ env) db = retry n late stmt env db
  retry (suc n) late stmt (unacknowledged t u ∷ env) db =
      after_lost (retry n late stmt env) env db (stmt t u db)
  retry (suc n) late stmt (acknowledged t u ∷ env) db =
      after_acknowledged (retry n late stmt env) env db (stmt t u db)

module _ {R : Type 0} where
  -- `UPDATE ... WHERE ... RETURNING` that may match no row.
  abbrev pub required : {E : Type 0} → E → Reply E (Option R) → Reply E R
  required lost r = elim r.result [
    | err e ↦ replied (err e) r.rest r.db
    | ok none ↦ replied (err lost) r.rest r.db
    | ok (some x) ↦ replied (ok x) r.rest r.db
  ]

-- A call that checks its arguments before it goes to the database.
abbrev pub checked : {E A R : Type 0} → (A → Reply E R) → List Attempt → Db → Result E A → Reply E R
checked call env db (err e) = replied (err e) env db
checked call env db (ok a) = call a

-- A call whose first query may find no row, and then asks a second one.
abbrev pub otherwise :
    {E R : Type 0}
    → (List Attempt → Db → Reply E R)
    → List Attempt
    → Db
    → Result E (Option R)
    → Reply E R
otherwise second env db (err e) = replied (err e) env db
otherwise second env db (ok none) = second env db
otherwise second env db (ok (some x)) = replied (ok x) env db
