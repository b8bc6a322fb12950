-- ===== src/Network/Controller/Admission.antt =====
-- The permits bound the threads inside, and a switch that is off lets nobody in.
use ai_api_security_platform.Prelude.{ℕ, ◌+◌, ◌≡◌, ◌≤◌, refl, ◌∙◌, List, [], ◌∷◌, ◌++◌, arith}
use ai_api_security_platform.Network.Controller.{
  Controller, set_global, disable_target, enable_target, acquire, release, validate_target_id,
  Thread, outside, waiting, rechecking, admitted, Moves, checks, permits, times_out, enters,
  refuses, leaves, Switches, globally, disables, enables, Step, thread, operator, Trace, stop, step,
}

abbrev pub permit_of : Thread → ℕ
permit_of outside = 0
permit_of (waiting _) = 0
permit_of (rechecking _) = 1
permit_of (admitted _) = 1

-- The permits that the threads hold.
abbrev pub permits_of : List Thread → ℕ
permits_of [] = 0
permits_of (t ∷ ts) = permit_of t + permits_of ts

permits_of-append : (xs ys : List Thread) → permits_of (xs ++ ys) ≡ permits_of xs + permits_of ys
permits_of-append [] ys = omega arith
permits_of-append (x ∷ xs) ys = omega (arith, permits_of-append xs ys)

pub record IsBounded (c : Controller) (ts : List Thread) : Type 0 where
  pub counted : c.held ≡ permits_of ts
  pub bounded : c.held ≤ c.maximum_concurrency

Moves-held :
    {c c' : Controller} {a b : Thread} (others : ℕ)
    → Moves c a c' b
    → c.held ≡ others + permit_of a
    → c.held ≤ c.maximum_concurrency
    → (c'.held ≡ others + permit_of b) × (c'.held ≤ c'.maximum_concurrency)
unfolding acquire release
Moves-held others (checks given t e) h k = omega arith
Moves-held others (permits given e) h k = ground arith
Moves-held others (times_out given e) h k = omega arith
Moves-held others (enters given t e) h k = omega arith
Moves-held others (refuses given x e) h k = omega arith
Moves-held others (leaves given) h k = omega arith

Switches-held :
    {c c' : Controller}
    → Switches c c'
    → (c'.held ≡ c.held) × (c'.maximum_concurrency ≡ c.maximum_concurrency)
unfolding set_global disable_target enable_target validate_target_id
Switches-held (globally b) = (refl, refl)
Switches-held (disables given e) = ground arith
Switches-held (enables given e) = ground arith

IsBounded-Step :
    {c c' : Controller} {ts ts' : List Thread}
    → Step c ts c' ts'
    → IsBounded c ts
    → IsBounded c' ts'
IsBounded-Step (thread {a = a} {b = b} before after m) h =
    let others = permits_of before + permits_of after in
    let kept =
      Moves-held others m (omega (arith, h.counted, permits_of-append before (a ∷ after)))
        h.bounded in
    record {
      counted = omega (arith, kept.0, permits_of-append before (b ∷ after));
      bounded = kept.1;
    }
IsBounded-Step (operator s) h =
    let kept = Switches-held s in
    record { counted = kept.0 ∙ h.counted; bounded = omega (arith, kept, h.bounded) }

-- However the threads and the operators interleave, the semaphore counts the threads that are past
-- it, and these are at most `maximum_concurrency`.
pub IsBounded-Trace :
    {c c' : Controller} {ts ts' : List Thread}
    → Trace c ts c' ts'
    → IsBounded c ts
    → IsBounded c' ts'
IsBounded-Trace stop h = h
IsBounded-Trace (step s rest) h = IsBounded-Trace rest (IsBounded-Step s h)
