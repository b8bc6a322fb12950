-- ===== src/Network/Controller/KillSwitch.antt =====
-- A target that is switched off admits no thread any more, those that already waited included.
use ai_api_security_platform.Prelude.{
  ℕ, zero, suc, ◌+◌, ◌==◌, ◌≡◌, ◌≢◌, ◌≤◌, refl, sym, ◌∙◌, subst, inl, inr, true, false, not, List,
  [], ◌∷◌, ◌++◌, any, filter, ok, arith, if◌then◌else◌, Bool-cases, ==_refl,
}
use ai_api_security_platform.Network.Controller.{
  Identifier, integer, Controller, disable_target, enable_target, check_enabled, acquire, release,
  validate_target_id, Thread, admitted, Moves, checks, permits, times_out, enters, refuses, leaves,
}

-- No check lets the target pass.
abbrev pub IsShut : ℕ → Controller → Type 0
IsShut n c = (t : ℕ) → check_enabled (integer n) c ≢ ok t

-- Disabling a target shuts it.
pub disable-IsShut :
    (n : ℕ) (c c' : Controller) → disable_target (integer n) c ≡ ok c' → IsShut n c'
unfolding disable_target check_enabled validate_target_id
disable-IsShut zero c c' h t e = cc
disable-IsShut (suc n) c c' h t e = ground (arith, ==_refl (suc n))

any-filter : (n : ℕ) (xs : List ℕ) → any (λ d. n == d) (filter (λ d. not (d == n)) xs) ≡ false
any-filter n [] = refl
any-filter n (x ∷ xs) = ground (arith, any-filter n xs)

-- Switching a target off and on again lets it pass, if the global switch is on.
pub enable-disable :
    (n : ℕ) (c d e : Controller)
    → c.global_enabled ≡ true
    → disable_target (integer (suc n)) c ≡ ok d
    → enable_target (integer (suc n)) d ≡ ok e
    → check_enabled (integer (suc n)) e ≡ ok (suc n)
unfolding disable_target enable_target check_enabled validate_target_id
enable-disable n c d e g off on = ground (arith, any-filter (suc n) d.disabled_target_ids)

-- Steps of threads, with no operator.
pub data Threads : Controller → List Thread → Controller → List Thread → Type 0 where
  stop : {c : Controller} {ts : List Thread} → Threads c ts c ts
  step :
      {c d c' : Controller} {ts' : List Thread} {a b : Thread} (before after : List Thread)
      → Moves c a d b
      → Threads d (before ++ b ∷ after) c' ts'
      → Threads c (before ++ a ∷ after) c' ts'

abbrev pub is_inside : ℕ → Thread → ℕ
is_inside n (admitted (integer m)) = if m == n then 1 else 0
is_inside n _ = 0

-- How many threads are in the body of an admission to the target.
abbrev pub inside : ℕ → List Thread → ℕ
inside n [] = 0
inside n (t ∷ ts) = is_inside n t + inside n ts

inside-append : (n : ℕ) (xs ys : List Thread) → inside n (xs ++ ys) ≡ inside n xs + inside n ys
inside-append n [] ys = omega arith
inside-append n (x ∷ xs) ys = omega (arith, inside-append n xs ys)

Moves-switches :
    {c c' : Controller} {a b : Thread} (given : Identifier)
    → Moves c a c' b
    → check_enabled given c' ≡ check_enabled given c
unfolding check_enabled acquire release
Moves-switches given (checks g t e) = refl
Moves-switches given (permits g e) = ground arith
Moves-switches given (times_out g e) = refl
Moves-switches given (enters g t e) = refl
Moves-switches given (refuses g x e) = refl
Moves-switches given (leaves g) = refl

Moves-inside :
    {c c' : Controller} {a b : Thread} (n : ℕ)
    → Moves c a c' b
    → IsShut n c
    → is_inside n b ≤ is_inside n a
Moves-inside n (checks g t e) shut = omega arith
Moves-inside n (permits g e) shut = omega arith
Moves-inside n (times_out g e) shut = omega arith
Moves-inside {c = c} n (enters (integer m) t e) shut = elim (Bool-cases (m == n)) [
  | inl same ↦ absurd (shut t (subst (λ k. check_enabled (integer k) c ≡ ok t) (ground arith) e))
  | inr other ↦ rw other (omega arith)
]
Moves-inside n (enters g t e) shut = omega arith
Moves-inside n (refuses g x e) shut = omega arith
Moves-inside n (leaves g) shut = ground arith

-- While a target is shut no thread enters an admission to it, even one that passed the first check
-- before the target was shut and only waited for its permit.
pub shut_admits_nobody :
    {c c' : Controller} {ts ts' : List Thread} (n : ℕ)
    → IsShut n c
    → Threads c ts c' ts'
    → inside n ts' ≤ inside n ts
shut_admits_nobody n shut stop = omega arith
shut_admits_nobody n shut (step {d = d} {a = a} {b = b} before after m rest) =
    let still : IsShut n d = λ t e. shut t (sym (Moves-switches (integer n) m) ∙ e) in
    omega (
      arith,
      shut_admits_nobody n still rest,
      Moves-inside n m shut,
      inside-append n before (a ∷ after),
      inside-append n before (b ∷ after),
    )
