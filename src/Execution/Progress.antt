-- ===== src/Execution/Progress.antt =====
-- backend/app/services/execution_plan_progress.py: the record of how far an execution has got, and
-- the mark that is written before the first byte goes to the network.
pub mod Marking
use ai_api_security_platform.Prelude.{
  ℕ, ◌==◌, leb, Bool, true, false, ◌&&◌, Option, none, some, List, Result, ok, err, if◌then◌else◌,
}
use ai_api_security_platform.Execution.Database.{
  Phase, pre_network, network_started, in_doubt, ProgressRow, Db, put, exception, raise, commit,
  Transaction, Attempt, Reply, replied, retry,
}
use ai_api_security_platform.Execution.Claim.{ClaimHandle, is_current}

pub data ProgressError : Type 0 where
  progress_in_doubt progress_lost progress_coordination progress_cancelled : ProgressError

pub record ProgressState : Type 0 where
  pub execution_plan_id : ℕ
  pub fencing_generation : ℕ
  pub phase : Phase
  pub updated_at : ℕ

-- The classification in the first column of the statement's row.
pub data Preparation : Type 0 where
  prepared : ProgressState → Preparation
  found_in_doubt found_lost : Preparation

abbrev pub is_pre_network : Phase → Bool
is_pre_network pre_network = true
is_pre_network _ = false

-- `progress.phase='pre_network' AND progress.fencing_generation <= EXCLUDED.fencing_generation`
abbrev pub may_prepare : ClaimHandle → Option ProgressRow → Bool
may_prepare h none = true
may_prepare h (some row) =
    is_pre_network row.phase && leb row.fencing_generation h.fencing_generation

abbrev state_of : ClaimHandle → Phase → ℕ → ProgressState
state_of h phase now = record {
  execution_plan_id = h.execution_plan_id;
  fencing_generation = h.fencing_generation;
  phase = phase;
  updated_at = now;
}

abbrev row_of : ClaimHandle → Phase → ℕ → ProgressRow
row_of h phase now = record {
  fencing_generation = h.fencing_generation;
  phase = phase;
  updated_at = now;
}

-- The CASE of the statement's second half, where a claim is current and nothing was prepared.
abbrev classify_blocked : Option ProgressRow → Preparation
classify_blocked none = found_lost
classify_blocked (some row) = elim row.phase [
  | pre_network ↦ found_lost
  | network_started ↦ found_in_doubt
  | in_doubt ↦ found_in_doubt
]

unfoldable pub prepare_statement : ClaimHandle → Transaction ProgressError Preparation
unfolding is_current
prepare_statement h at stamp db =
    if is_current h at db
    then if may_prepare h (db.progress h.execution_plan_id)
      then commit (prepared (state_of h pre_network stamp)) (record db {
        progress = put db.progress h.execution_plan_id (row_of h pre_network stamp);
      })
      else commit (classify_blocked (db.progress h.execution_plan_id)) db
    else commit found_lost db

abbrev pub prepared_or_error : Result ProgressError Preparation → Result ProgressError ProgressState
prepared_or_error (ok (prepared s)) = ok s
prepared_or_error (ok found_in_doubt) = err progress_in_doubt
prepared_or_error (ok found_lost) = err progress_lost
prepared_or_error (err e) = err e

-- `FOR UPDATE ... .one()` raises for a plan that does not exist, and that is retried.
unfoldable pub mark_statement : ClaimHandle → Transaction ProgressError ProgressState
unfolding is_current
mark_statement h at stamp db =
    if db.plans h.execution_plan_id
    then if is_current h at db
      then elim (db.cancellations h.execution_plan_id) [
        | some _ ↦ raise progress_cancelled
        | none ↦ elim (db.progress h.execution_plan_id) [
          | none ↦ raise progress_lost
          | some row ↦
              if row.fencing_generation == h.fencing_generation && is_pre_network row.phase
              then commit (state_of h network_started stamp) (record db {
                progress = put db.progress h.execution_plan_id (row_of h network_started stamp);
              })
              else raise progress_lost
        ]
      ]
      else raise progress_lost
    else exception

module _ (max_retries : ℕ) where
  unfoldable pub prepare_attempt :
      ClaimHandle → List Attempt → Db → Reply ProgressError ProgressState
  unfolding retry
  prepare_attempt h env db =
      let r = retry max_retries progress_coordination (prepare_statement h) env db in
      replied (prepared_or_error r.result) r.rest r.db

  unfoldable pub mark_network_started :
      ClaimHandle → List Attempt → Db → Reply ProgressError ProgressState
  unfolding retry
  mark_network_started h env db = retry max_retries progress_coordination (mark_statement h) env db
