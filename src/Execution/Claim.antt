-- ===== src/Execution/Claim.antt =====
-- backend/app/services/execution_plan_claim.py: leases on plans, fenced by a generation.
pub mod Lease
pub mod Release
use ai_api_security_platform.Prelude.{
  ℕ, suc, ◌+◌, ◌*◌, ◌^◌, ◌==◌, ltb, leb, ◌≡◌, Bool, true, false, not, ◌&&◌, ◌||◌, Option, none,
  some, List, [], ◌∷◌, Text, ◌=ₜ◌, strip, is_space, length, Result, ok, err, ◌>>=◌, ◌>>◌, guard,
  if◌then◌else◌,
}
use ai_api_security_platform.Execution.Database.{
  ClaimRow, Db, put, Outcome, exception, raise, commit, Transaction, Attempt, aborted,
  unacknowledged, acknowledged, Reply, replied, retry, required, checked, otherwise,
}

pub data ClaimError : Type 0 where
  claim_unavailable claim_lost claim_coordination invalid_owner invalid_lease : ClaimError

pub record ClaimHandle : Type 0 where
  pub execution_plan_id : ℕ
  pub owner_id : Text
  pub fencing_generation : ℕ
  pub lease_expires_at : ℕ
  pub database_now : ℕ

-- A second in units of 2^-1074 seconds, of which every finite float is a whole number.
abbrev pub second : ℕ
second = 2 ^ 1074

-- A Python value that is to be a number of seconds. A finite one that is not negative is given by its
-- value in those units, and by the microseconds of the interval that PostgreSQL's `make_interval` makes
-- of it: it rounds, down to 0 for the smallest ones.
pub data Seconds : Type 0 where
  boolean : Bool → Seconds
  finite : ℕ → ℕ → Seconds
  negative not_finite not_a_number : Seconds

-- The microseconds of `make_interval(secs => ...)`.
abbrev pub make_interval : Seconds → ℕ
make_interval (finite units interval) = interval
make_interval _ = 0

-- `_validate`, and the interval of a lease that passes it.
lease_micros : Seconds → Result ClaimError ℕ
lease_micros (finite units interval) =
    if ltb 0 units && leb units (300 * second) then ok interval else err invalid_lease
lease_micros _ = err invalid_lease

unfoldable pub validate : Text → Seconds → Result ClaimError ℕ
unfolding lease_micros
validate owner_id lease = do
  guard (not (strip is_space owner_id =ₜ []) && leb (length owner_id) 128) invalid_owner
  lease_micros lease

abbrev pub is_owned_by : Text → ClaimRow → Bool
is_owned_by owner row = elim row.owner_id [ none ↦ false | some o ↦ o =ₜ owner ]

-- `owner_id IS NULL OR lease_expires_at <= now`
abbrev pub is_free : ClaimRow → ℕ → Bool
is_free row now = elim row.owner_id [ none ↦ true | some _ ↦ leb row.lease_expires_at now ]

-- the row's owner and generation are the handle's
abbrev pub holds : ClaimHandle → ClaimRow → Bool
holds h row = is_owned_by h.owner_id row && row.fencing_generation == h.fencing_generation

unfoldable pub is_current : ClaimHandle → ℕ → Db → Bool
is_current h now db = elim (db.claims h.execution_plan_id) [
  | none ↦ false
  | some row ↦ holds h row && ltb now row.lease_expires_at
]

abbrev claim_row : Text → ℕ → ℕ → ClaimRow
claim_row owner generation expires = record {
  owner_id = some owner;
  fencing_generation = generation;
  lease_expires_at = expires;
}

abbrev grant : ℕ → Text → ℕ → ℕ → ℕ → Db → Outcome ClaimError (Option ClaimHandle)
grant plan owner generation now expires db =
    commit
      (some (record {
        execution_plan_id = plan;
        owner_id = owner;
        fencing_generation = generation;
        lease_expires_at = expires;
        database_now = now;
      }))
      (record db { claims = put db.claims plan (claim_row owner generation expires) })

-- INSERT ... ON CONFLICT (execution_plan_id) DO UPDATE ... WHERE ... RETURNING; the foreign key
-- makes the insertion fail for a plan that does not exist.
unfoldable pub acquire_statement : ℕ → Text → ℕ → Transaction ClaimError (Option ClaimHandle)
acquire_statement plan owner lease now _ db = elim (db.claims plan) [
  | none ↦ if db.plans plan then grant plan owner 1 now (now + lease) db else exception
  | some row ↦
      if is_free row now
      then grant plan owner (row.fencing_generation + 1) now (now + lease) db
      else commit none db
]

pub assert_statement : ClaimHandle → Transaction ClaimError (Option ℕ)
unfolding is_current
assert_statement h now _ db =
    commit (if is_current h now db then some h.execution_plan_id else none) db

unfoldable pub renew_statement : ClaimHandle → ℕ → Transaction ClaimError (Option ClaimHandle)
renew_statement h lease now _ db = elim (db.claims h.execution_plan_id) [
  | none ↦ commit none db
  | some row ↦
      if holds h row && ltb now row.lease_expires_at
      then grant h.execution_plan_id h.owner_id h.fencing_generation now (now + lease) db
      else commit none db
]

unfoldable pub release_statement : ClaimHandle → Transaction ClaimError (Option ℕ)
release_statement h now _ db = elim (db.claims h.execution_plan_id) [
  | none ↦ commit none db
  | some row ↦
      if holds h row
      then commit (some h.execution_plan_id) (record db {
        claims =
            put db.claims h.execution_plan_id
              (record row { owner_id = none; lease_expires_at = now });
      })
      else commit none db
]

-- the second query of `release`: is the claim free at this generation already?
abbrev pub is_released : ClaimHandle → ClaimRow → Bool
is_released h row = elim row.owner_id [
  | none ↦ row.fencing_generation == h.fencing_generation
  | some _ ↦ false
]

unfoldable pub released_statement : ClaimHandle → Transaction ClaimError (Option ℕ)
released_statement h _ _ db =
    commit
      (elim (db.claims h.execution_plan_id) [
        | none ↦ none
        | some row ↦ if is_released h row then some h.execution_plan_id else none
      ])
      db

-- The service is configured by its number of attempts.
module _ (max_retries : ℕ) where
  -- `_run`
  unfoldable pub run :
      {R : Type 0}
      → Transaction ClaimError (Option R)
      → List Attempt
      → Db
      → Reply ClaimError (Option R)
  unfolding retry
  run stmt env db = retry max_retries claim_coordination stmt env db

  unfoldable pub acquire : ℕ → Text → Seconds → List Attempt → Db → Reply ClaimError ClaimHandle
  unfolding run
  acquire plan owner lease env db =
      checked (λ m. required claim_unavailable (run (acquire_statement plan owner m) env db)) env db
        (validate owner lease)

  -- `assert_current` without a session of the caller's
  unfoldable pub assert_current : ClaimHandle → List Attempt → Db → Reply ClaimError ℕ
  unfolding run
  assert_current h env db = required claim_lost (run (assert_statement h) env db)

  unfoldable pub renew : ClaimHandle → Seconds → List Attempt → Db → Reply ClaimError ClaimHandle
  unfolding run
  renew h lease env db =
      checked (λ m. required claim_lost (run (renew_statement h m) env db)) env db
        (validate h.owner_id lease)

  unfoldable pub release : ClaimHandle → List Attempt → Db → Reply ClaimError ℕ
  unfolding run
  release h env db =
      let first = run (release_statement h) env db in
      otherwise (λ rest d. required claim_lost (run (released_statement h) rest d)) first.rest
        first.db first.result

-- `assert_current` in the caller's session: one attempt, in a transaction that goes on.
unfoldable pub assert_current_in : ClaimHandle → Attempt → Db → Result ClaimError ℕ
unfolding is_current
assert_current_in h (acknowledged now _) db =
    if is_current h now db then ok h.execution_plan_id else err claim_lost
assert_current_in h _ db = err claim_coordination
