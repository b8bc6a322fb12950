-- ===== src/RateLimit.antt =====
-- `validate_requests_per_second` and `PostgresRateLimiter` of backend/app/executors/rate_limit.py.
pub mod Spacing
mod Tests
use ai_api_security_platform.Prelude.{
  ℕ, zero, suc, ◌+◌, ◌-◌, max, min, ltb, Bool, Option, none, some, List, [], ◌∷◌, Text, ◌=ₜ◌,
  Result, ok, err, ◌>>=◌, ◌>>◌, guard, if◌then◌else◌,
}
use ai_api_security_platform.Executor.{Waited, admitted_by_rate, misconfigured, uncoordinated}
use ai_api_security_platform.Execution.Database.{Attempt, aborted, unacknowledged, acknowledged}

-- A Python value that is to be a number. A finite float that is not negative is given as a multiple of
-- the least positive float; an int by the float that it converts to.
pub data PythonNumber : Type 0 where
  boolean not_a_number not_finite negative : PythonNumber
  float : ℕ → PythonNumber

-- A Python value that is to be an int.
pub data PythonCount : Type 0 where
  boolean_count not_an_int negative_count : PythonCount
  count : ℕ → PythonCount

pub data RateError : Type 0 where
  rate_configuration rate_coordination invalid_retries invalid_timeout : RateError

-- `validate_requests_per_second`, and the like test of the time limit
unfoldable pub validate_number : RateError → PythonNumber → Result RateError ℕ
validate_number e (float r) = do guard (ltb 0 r) e; ok r
validate_number e _ = err e

abbrev pub validate_retries : PythonCount → Result RateError ℕ
validate_retries (count n) = do guard (ltb 0 n) invalid_retries; ok n
validate_retries _ = err invalid_retries

-- The fields of PostgresRateLimiter that decide what is reserved.
pub record Limiter : Type 0 where
  pub platform_requests_per_second : ℕ
  pub max_retries : ℕ

-- `PostgresRateLimiter.__init__`
unfoldable pub create_limiter : PythonNumber → PythonCount → PythonNumber → Result RateError Limiter
unfolding validate_number
create_limiter rate retries timeout = do
  platform ← validate_number rate_configuration rate
  n ← validate_retries retries
  attempt_timeout ← validate_number invalid_timeout timeout
  ok (record { platform_requests_per_second = platform; max_retries = n })

-- rate_reservation_states: `next_allowed_at` by the key, in microseconds.
abbrev pub States : Type 0
States = Text → Option ℕ

-- The end of a call: its delay or its error, and the table.
pub record Reply : Type 0 where
  pub result : Result RateError ℕ
  pub states : States

abbrev pub replied : Result RateError ℕ → States → Reply
replied r states = record { result = r; states = states }

-- When the reservation begins: the inserted row starts from the clock, and a row that is there from
-- the later of its time and the clock.
abbrev pub slot : ℕ → Option ℕ → ℕ
slot now none = now
slot now (some next) = max next now

-- the statement of `_reserve_once`: the new row
unfoldable pub reserve_statement : Text → ℕ → ℕ → States → States
reserve_statement key minimum_interval now states =
    λ k. if key =ₜ k then some (slot now (states key) + minimum_interval) else states k

-- the RETURNING clause, which reads the clock again
abbrev pub delay_at : Text → ℕ → ℕ → States → ℕ
delay_at key now later states = slot now (states key) - later

-- the loop of `reserve_delay`
unfoldable pub reserve : ℕ → Text → ℕ → List Attempt → States → Reply
unfolding reserve_statement
reserve zero key minimum_interval env states = replied (err rate_coordination) states
reserve (suc n) key minimum_interval [] states = replied (err rate_coordination) states
reserve (suc n) key minimum_interval (aborted ∷ env) states =
    reserve n key minimum_interval env states
reserve (suc n) key minimum_interval (unacknowledged now later ∷ env) states =
    reserve n key minimum_interval env (reserve_statement key minimum_interval now states)
reserve (suc n) key minimum_interval (acknowledged now later ∷ env) states =
    replied (ok (delay_at key now later states)) (reserve_statement key minimum_interval now states)

-- `interval` is what PostgreSQL makes of `make_interval(secs => 1.0 / rate)`, in microseconds.
module _ (interval : ℕ → ℕ) where
  abbrev pub effective_interval : Limiter → ℕ → ℕ
  effective_interval limiter requested =
      interval (min limiter.platform_requests_per_second requested)

  abbrev pub reserve_validated : Limiter → Text → List Attempt → States → Result RateError ℕ → Reply
  reserve_validated limiter key env states (err e) = replied (err e) states
  reserve_validated limiter key env states (ok requested) =
      reserve limiter.max_retries key (effective_interval limiter requested) env states

  unfoldable pub reserve_delay : Limiter → Text → PythonNumber → List Attempt → States → Reply
  unfolding validate_number reserve
  reserve_delay limiter key requested env states =
      reserve_validated limiter key env states (validate_number rate_configuration requested)

-- How the executor meets the end of `wait`, which sleeps for the delay.
abbrev pub waited : Result RateError ℕ → Waited
waited (ok delay) = admitted_by_rate
waited (err rate_coordination) = uncoordinated
waited (err _) = misconfigured
