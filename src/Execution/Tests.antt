-- ===== src/Execution/Tests.antt =====
-- One plan of two workers: a run of the coordination services on concrete tables and clocks.
use ai_api_security_platform.Prelude.{
  ℕ, ◌+◌, ◌*◌, ◌^◌, ◌==◌, ◌≡◌, ◌≢◌, ◌≤◌, ◌<◌, refl, inl, In, true, false, none, some, List, [], ◌∷◌,
  Text, text, ok, arith,
}
use ai_api_security_platform.Execution.Database.{
  Db, ClaimRow, ProgressRow, pre_network, network_started, Attempt, aborted, unacknowledged,
  acknowledged, put,
}
use ai_api_security_platform.Execution.Claim.{
  ClaimHandle, Seconds, finite, acquire, renew, release, validate, is_current, acquire_statement,
  release_statement, renew_statement,
}
use ai_api_security_platform.Execution.Claim.Lease.{
  acquire_granted, acquire_excluded, renew_granted, generation,
}
use ai_api_security_platform.Execution.Claim.Release.{release-IsFreed, IsFreed}
use ai_api_security_platform.Execution.Progress.Marking.{IsMarked, mark-IsMarked}
use ai_api_security_platform.Execution.Progress.{
  mark_network_started, prepare_statement, mark_statement,
}
use ai_api_security_platform.Execution.Cancellation.{cancel_statement}
use ai_api_security_platform.Execution.Interleaving.{
  claimed, started, cancelled, quiet, Step, acquires, releases, prepares, marks, cancels, stop,
  step, starts,
}
use ai_api_security_platform.Execution.Interleaving.Starts.{
  starts_once, cancelled_never_starts, started_never_cancelled,
}
use ai_api_security_platform.Execution.Interleaving.Fencing.{stale_forever, claims_increase}

abbrev worker : Text
worker = text "worker-1"

abbrev other : Text
other = text "worker-2"

-- The tables with one row of execution_plans, whose identifier is 7.
abbrev fresh : Db
fresh = record {
  plans = λ p. p == 7;
  claims = λ _. none;
  progress = λ _. none;
  cancellations = λ _. none;
  runs = λ _. none;
}

abbrev handle : ClaimHandle
handle = record {
  execution_plan_id = 7;
  owner_id = worker;
  fencing_generation = 1;
  lease_expires_at = 110;
  database_now = 10;
}

abbrev handle_2 : ClaimHandle
handle_2 = record {
  execution_plan_id = 7;
  owner_id = other;
  fencing_generation = 2;
  lease_expires_at = 210;
  database_now = 110;
}

abbrev row : ClaimRow
row = record { owner_id = some worker; fencing_generation = 1; lease_expires_at = 110 }

abbrev row_2 : ClaimRow
row_2 = record { owner_id = some other; fencing_generation = 2; lease_expires_at = 210 }

abbrev held : Db
held = record fresh { claims = put fresh.claims 7 row }

abbrev taken : Db
taken = record held { claims = put held.claims 7 row_2 }

abbrev prepared_row : ProgressRow
prepared_row = record { fencing_generation = 1; phase = pre_network; updated_at = 21 }

abbrev started_row : ProgressRow
started_row = record { fencing_generation = 1; phase = network_started; updated_at = 31 }

abbrev ready : Db
ready = record held { progress = put held.progress 7 prepared_row }

abbrev running : Db
running = record ready { progress = put ready.progress 7 started_row }

abbrev withdrawn : Db
withdrawn = record held { cancellations = put held.cancellations 7 15 }

acquire-Step : Step (claimed handle) fresh held
unfolding acquire_statement
acquire-Step = acquires 7 worker 100 10 11 refl

takeover-Step : Step (claimed handle_2) held taken
unfolding acquire_statement
takeover-Step = acquires 7 other 100 110 111 refl

prepare-Step : Step quiet held ready
unfolding prepare_statement
prepare-Step = prepares handle 20 21 refl

mark-Step : Step (started 7) ready running
unfolding mark_statement
mark-Step = marks handle 30 31 refl

cancel-Step : Step (cancelled 7) held withdrawn
unfolding cancel_statement
cancel-Step = cancels 7 15 16 refl

starts_once_example : starts 7 (claimed handle ∷ quiet ∷ started 7 ∷ []) ≤ 1
starts_once_example = starts_once 7 (step acquire-Step (step prepare-Step (step mark-Step stop)))

cancelled_ready :
    Step quiet withdrawn (record withdrawn { progress = put withdrawn.progress 7 prepared_row })
unfolding prepare_statement
cancelled_ready = prepares handle 20 21 refl

cancelled_never_starts_example : starts 7 (quiet ∷ []) ≡ 0
cancelled_never_starts_example = cancelled_never_starts 7 (λ e. cc) refl (step cancelled_ready stop)

release-Step : Step quiet running (record running {
  claims = put running.claims 7 (record row { owner_id = none; lease_expires_at = 40 });
})
unfolding release_statement
release-Step = releases handle 40 41 refl

started_never_cancelled_example :
    (record running {
      claims = put running.claims 7 (record row { owner_id = none; lease_expires_at = 40 });
    }).cancellations
      7
    ≡ none
started_never_cancelled_example =
    started_never_cancelled 7 {db = running} refl refl (step release-Step stop)

stale_forever_example : is_current handle 150 taken ≡ false
stale_forever_example = stale_forever handle 150 {db = taken} (omega arith) stop

claims_increase_example : 1 < 2
claims_increase_example =
    claims_increase handle handle_2 refl (inl refl) (step acquire-Step (step takeover-Step stop))

-- The float 0.0001.
abbrev lease : Seconds
lease = finite (7378697629483821 * 2 ^ 1008) 100

abbrev attempts : List Attempt
attempts = aborted ∷ acknowledged 10 11 ∷ []

acquired : (acquire 3 7 worker lease attempts fresh).result ≡ ok handle
unfolding acquire validate acquire_statement
acquired = refl

acquire_granted_example :
    (handle.execution_plan_id ≡ 7)
    × (handle.owner_id ≡ worker)
    × (handle.lease_expires_at ≡ handle.database_now + 100)
    × (is_current handle 109 (acquire 3 7 worker lease attempts fresh).db ≡ true)
    × (generation 7 fresh < handle.fencing_generation)
acquire_granted_example =
    acquire_granted 3 7 worker lease attempts fresh handle 109 acquired (omega arith)

acquire_excluded_example :
    ((acquire 3 7 other lease (unacknowledged 20 21 ∷ acknowledged 30 31 ∷ []) held).db ≡ held)
    × ((h : ClaimHandle)
        → (acquire 3 7 other lease (unacknowledged 20 21 ∷ acknowledged 30 31 ∷ []) held).result
          ≢ ok h)
acquire_excluded_example =
    acquire_excluded 7 other held row worker 3 lease
      (unacknowledged 20 21 ∷ acknowledged 30 31 ∷ []) refl refl (omega arith, (omega arith, tt))

abbrev renewed : ClaimHandle
renewed = record handle { lease_expires_at = 150; database_now = 50 }

renewal : (renew 3 handle lease (acknowledged 50 51 ∷ []) held).result ≡ ok renewed
unfolding renew validate renew_statement
renewal = refl

renew_granted_example :
    (renewed.execution_plan_id ≡ handle.execution_plan_id)
    × (renewed.owner_id ≡ handle.owner_id)
    × (renewed.fencing_generation ≡ handle.fencing_generation)
    × (generation handle.execution_plan_id held ≡ handle.fencing_generation)
    × (renewed.lease_expires_at ≡ renewed.database_now + 100)
    × (is_current renewed 149 (renew 3 handle lease (acknowledged 50 51 ∷ []) held).db ≡ true)
renew_granted_example =
    renew_granted 3 handle lease (acknowledged 50 51 ∷ []) held renewed 149 renewal (omega arith)

released : (release 3 handle (aborted ∷ acknowledged 60 61 ∷ []) held).result ≡ ok 7
unfolding release release_statement
released = refl

release-IsFreed_example :
    IsFreed handle (release 3 handle (aborted ∷ acknowledged 60 61 ∷ []) held).db
release-IsFreed_example =
    release-IsFreed 3 handle (aborted ∷ acknowledged 60 61 ∷ []) held 7 released

marked :
    (mark_network_started 3 handle (aborted ∷ acknowledged 30 31 ∷ []) ready).result
    ≡ ok (record {
      execution_plan_id = 7;
      fencing_generation = 1;
      phase = network_started;
      updated_at = 31;
    })
unfolding mark_network_started mark_statement is_current
marked = refl

mark-IsMarked_example :
    (at : ℕ) × (stamp : ℕ) × In (acknowledged at stamp) (aborted ∷ acknowledged 30 31 ∷ [])
    × IsMarked handle at stamp
        (mark_network_started 3 handle (aborted ∷ acknowledged 30 31 ∷ []) ready).db
mark-IsMarked_example = mark-IsMarked handle 3 (aborted ∷ acknowledged 30 31 ∷ []) ready _ marked
