-- ===== src/Network/Controller.antt =====
-- NetworkExecutionController of backend/app/network_safety/controller.py: the switches and permits
-- of one process, and its threads as interleaved steps.
pub mod Admission
pub mod KillSwitch
use ai_api_security_platform.Prelude.{
  ℕ, zero, suc, ◌+◌, ◌-◌, ◌==◌, ltb, ◌≡◌, Bool, true, false, not, Option, none, some, List, [], ◌∷◌,
  ◌++◌, any, filter, Result, ok, err, ◌>>=◌, ◌>>◌, guard, if◌then◌else◌,
}

pub data Denial : Type 0 where
  network_target_invalid network_global_disabled network_target_disabled : Denial
  network_concurrency_timeout : Denial

-- What a caller may pass for a target identifier.
pub data Identifier : Type 0 where
  integer : ℕ → Identifier
  negative boolean not_an_integer : Identifier

-- `_validate_target_id`
unfoldable pub validate_target_id : Identifier → Result Denial ℕ
validate_target_id (integer zero) = err network_target_invalid
validate_target_id (integer (suc n)) = ok (suc n)
validate_target_id _ = err network_target_invalid

pub record Controller : Type 0 where
  pub global_enabled : Bool
  pub disabled_target_ids : List ℕ
  pub maximum_concurrency : ℕ
  -- permits of the semaphore that are taken
  pub held : ℕ

unfoldable pub set_global : Bool → Controller → Controller
set_global enabled c = record c { global_enabled = enabled }

-- `set.add` and `set.discard`
unfoldable pub disable_target : Identifier → Controller → Result Denial Controller
disable_target given c = validate_target_id given >>= λ t.
    ok (record c { disabled_target_ids = t ∷ filter (λ d. not (d == t)) c.disabled_target_ids })

unfoldable pub enable_target : Identifier → Controller → Result Denial Controller
enable_target given c = validate_target_id given >>= λ t.
    ok (record c { disabled_target_ids = filter (λ d. not (d == t)) c.disabled_target_ids })

unfoldable pub check_enabled : Identifier → Controller → Result Denial ℕ
check_enabled given c = do
  t ← validate_target_id given
  guard c.global_enabled network_global_disabled
  guard (not (any (λ d. t == d) c.disabled_target_ids)) network_target_disabled
  ok t

-- `self._permits.acquire(timeout=...)` when it stops waiting; none: no permit was free.
unfoldable pub acquire : Controller → Option Controller
acquire c = if ltb c.held c.maximum_concurrency then some (record c { held = c.held + 1 }) else none

-- `self._permits.release()`
unfoldable pub release : Controller → Controller
release c = record c { held = c.held - 1 }

-- Where a thread stands in `with controller.admission(target_id)`: before it, waiting for a permit
-- after the first check, holding a permit before the second check, in the body.
pub data Thread : Type 0 where
  outside : Thread
  waiting rechecking admitted : Identifier → Thread

-- One step of one thread.
pub data Moves : Controller → Thread → Controller → Thread → Type 0 where
  checks :
      {c : Controller} (given : Identifier) (t : ℕ)
      → check_enabled given c ≡ ok t
      → Moves c outside c (waiting given)
  permits :
      {c c' : Controller} (given : Identifier)
      → acquire c ≡ some c'
      → Moves c (waiting given) c' (rechecking given)
  times_out :
      {c : Controller} (given : Identifier) → acquire c ≡ none → Moves c (waiting given) c outside
  enters :
      {c : Controller} (given : Identifier) (t : ℕ)
      → check_enabled given c ≡ ok t
      → Moves c (rechecking given) c (admitted given)
  refuses :
      {c : Controller} (given : Identifier) (e : Denial)
      → check_enabled given c ≡ err e
      → Moves c (rechecking given) (release c) outside
  leaves : {c : Controller} (given : Identifier) → Moves c (admitted given) (release c) outside

-- An operator's switch.
pub data Switches : Controller → Controller → Type 0 where
  globally : {c : Controller} (enabled : Bool) → Switches c (set_global enabled c)
  disables :
      {c c' : Controller} (given : Identifier) → disable_target given c ≡ ok c' → Switches c c'
  enables : {c c' : Controller} (given : Identifier) → enable_target given c ≡ ok c' → Switches c c'

pub data Step : Controller → List Thread → Controller → List Thread → Type 0 where
  thread :
      {c c' : Controller} {a b : Thread} (before after : List Thread)
      → Moves c a c' b
      → Step c (before ++ a ∷ after) c' (before ++ b ∷ after)
  operator : {c c' : Controller} {ts : List Thread} → Switches c c' → Step c ts c' ts

pub data Trace : Controller → List Thread → Controller → List Thread → Type 0 where
  stop : {c : Controller} {ts : List Thread} → Trace c ts c ts
  step :
      {c d c' : Controller} {ts us ts' : List Thread}
      → Step c ts d us
      → Trace d us c' ts'
      → Trace c ts c' ts'
