-- ===== src/Execution/Interleaving.antt =====
-- Any number of workers and operators at one database: every order of committed transactions of the
-- claim, progress and cancellation services, and of the canonical results that `_finish` of
-- backend/app/services/plan_execution.py inserts. The clock readings are arbitrary.
pub mod Fencing
pub mod Starts
pub mod Services
pub mod Results
use ai_api_security_platform.Prelude.{
  ℕ, zero, suc, ◌+◌, ◌==◌, ◌≡◌, Bool, true, false, Option, none, some, List, [], ◌∷◌, Text,
  if◌then◌else◌,
}
use ai_api_security_platform.Execution.Database.{
  Phase, pre_network, network_started, in_doubt, Db, put, commit,
}
use ai_api_security_platform.Execution.Claim.{
  ClaimHandle, is_current, acquire_statement, renew_statement, release_statement,
}
use ai_api_security_platform.Execution.Progress.{
  Preparation, ProgressState, prepare_statement, mark_statement,
}
use ai_api_security_platform.Execution.Cancellation.{CancellationState, cancel_statement}

pub data Event : Type 0 where
  claimed : ClaimHandle → Event
  started cancelled recorded : ℕ → Event
  quiet : Event

pub data Step : Event → Db → Db → Type 0 where
  acquires :
      (plan : ℕ) (owner : Text) (lease t u : ℕ) {db db' : Db} {h : ClaimHandle}
      → acquire_statement plan owner lease t u db ≡ commit (some h) db'
      → Step (claimed h) db db'
  renews :
      (h : ClaimHandle) (lease t u : ℕ) {db db' : Db} {r : Option ClaimHandle}
      → renew_statement h lease t u db ≡ commit r db'
      → Step quiet db db'
  releases :
      (h : ClaimHandle) (t u : ℕ) {db db' : Db} {r : Option ℕ}
      → release_statement h t u db ≡ commit r db'
      → Step quiet db db'
  prepares :
      (h : ClaimHandle) (t u : ℕ) {db db' : Db} {p : Preparation}
      → prepare_statement h t u db ≡ commit p db'
      → Step quiet db db'
  marks :
      (h : ClaimHandle) (t u : ℕ) {db db' : Db} {s : ProgressState}
      → mark_statement h t u db ≡ commit s db'
      → Step (started h.execution_plan_id) db db'
  cancels :
      (plan t u : ℕ) {db db' : Db} {s : CancellationState}
      → cancel_statement plan t u db ≡ commit s db'
      → Step (cancelled plan) db db'
  -- the claim is asserted and the row is inserted in one transaction
  records :
      (h : ClaimHandle) (run t : ℕ) {db : Db}
      → is_current h t db ≡ true
      → db.runs h.execution_plan_id ≡ none
      → Step
          (recorded h.execution_plan_id)
          db
          (record db { runs = put db.runs h.execution_plan_id run })

pub data Trace : Db → List Event → Db → Type 0 where
  stop : {db : Db} → Trace db [] db
  step :
      {db d db' : Db} {e : Event} {es : List Event}
      → Step e db d
      → Trace d es db'
      → Trace db (e ∷ es) db'

abbrev pub is_start : ℕ → Event → Bool
is_start plan (started p) = p == plan
is_start plan _ = false

-- How often the plan was marked as started.
abbrev pub starts : ℕ → List Event → ℕ
starts plan [] = 0
starts plan (e ∷ es) = let rest = starts plan es in if is_start plan e then suc rest else rest

abbrev pub count_started : Phase → ℕ
count_started network_started = 1
count_started _ = 0

-- 1 if the plan is marked as started, else 0.
abbrev pub has_started : ℕ → Db → ℕ
has_started plan db = elim (db.progress plan) [ none ↦ 0 | some row ↦ count_started row.phase ]
