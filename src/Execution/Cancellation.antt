-- ===== src/Execution/Cancellation.antt =====
-- backend/app/services/execution_plan_cancellation.py: a request to cancel a plan is accepted only
-- while the plan cannot have reached the network.
use ai_api_security_platform.Prelude.{ℕ, Bool, true, false, Option, none, some, List, if◌then◌else◌}
use ai_api_security_platform.Execution.Database.{
  pre_network, network_started, in_doubt, Db, put, raise, commit, Transaction, Attempt, Reply,
  retry,
}

pub data CancellationError : Type 0 where
  cancellation_not_found already_completed cancellation_in_doubt cancellation_coordination :
      CancellationError

pub record CancellationState : Type 0 where
  pub execution_plan_id : ℕ
  pub requested_at : ℕ

abbrev state_of : ℕ → ℕ → CancellationState
state_of plan at = record { execution_plan_id = plan; requested_at = at }

-- `phase in {"network_started", "in_doubt"}`
abbrev pub may_have_started : ℕ → Db → Bool
may_have_started plan db = elim (db.progress plan) [
  | none ↦ false
  | some row ↦ elim row.phase [ pre_network ↦ false | network_started ↦ true | in_doubt ↦ true ]
]

unfoldable pub cancel_statement : ℕ → Transaction CancellationError CancellationState
cancel_statement plan now _ db =
    if db.plans plan
    then elim (db.runs plan) [
      | some _ ↦ raise already_completed
      | none ↦
          if may_have_started plan db
          then raise cancellation_in_doubt
          else elim (db.cancellations plan) [
            | some at ↦ commit (state_of plan at) db
            | none ↦
                commit (state_of plan now)
                  (record db { cancellations = put db.cancellations plan now })
          ]
    ]
    else raise cancellation_not_found

unfoldable pub read_statement : ℕ → Transaction CancellationError (Option CancellationState)
read_statement plan _ _ db =
    commit (elim (db.cancellations plan) [ none ↦ none | some at ↦ some (state_of plan at) ]) db

module _ (max_retries : ℕ) where
  unfoldable pub request_cancel : ℕ → List Attempt → Db → Reply CancellationError CancellationState
  unfolding retry
  request_cancel plan env db =
      retry max_retries cancellation_coordination (cancel_statement plan) env db

  -- `get_cancellation` by `_run_read`
  unfoldable pub get_cancellation :
      ℕ → List Attempt → Db → Reply CancellationError (Option CancellationState)
  unfolding retry
  get_cancellation plan env db =
      retry max_retries cancellation_coordination (read_statement plan) env db
