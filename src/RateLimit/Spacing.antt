-- ===== src/RateLimit/Spacing.antt =====
-- The reservations of any number of workers on one key are spaced by their intervals.
use ai_api_security_platform.Prelude.{
  ℕ, zero, suc, ◌+◌, min, ◌≡◌, ◌≤◌, refl, sym, ap, subst, inl, inr, ◌⊎◌, some, List, [], ◌∷◌, ◌++◌,
  All, length, Text, ◌=ₜ◌, =ₜ_iff, ok, err, arith, Bool-cases, Option-cases, if◌then◌else◌,
}
use ai_api_security_platform.Execution.Database.{Attempt, aborted, unacknowledged, acknowledged}
use ai_api_security_platform.RateLimit.{
  RateError, rate_configuration, float, validate_number, Limiter, States, Reply, slot,
  reserve_statement, delay_at, reserve, effective_interval, reserve_delay,
}

-- A committed transaction of `_reserve_once`: its two readings of the clock.
pub record Reservation : Type 0 where
  pub key : Text
  pub minimum_interval : ℕ
  pub now : ℕ
  pub later : ℕ

abbrev pub reserve_all : List Reservation → States → States
reserve_all [] states = states
reserve_all (r ∷ rs) states =
    reserve_all rs (reserve_statement r.key r.minimum_interval r.now states)

-- The time that the earlier reservations of the key take.
abbrev pub taken : Text → List Reservation → ℕ
taken key [] = 0
taken key (r ∷ rs) =
    let rest = taken key rs in if r.key =ₜ key then r.minimum_interval + rest else rest

-- The next reservation of the key begins after the start and what is taken.
abbrev IsSpaced : Text → ℕ → ℕ → States → Type 0
IsSpaced key start time states =
    (time ≡ 0) ⊎ ((next : ℕ) × (states key ≡ some next) × (start + time ≤ next))

slot-IsSpaced :
    (key : Text) (start time now : ℕ) (states : States)
    → IsSpaced key start time states
    → start ≤ now
    → start + time ≤ slot now (states key)
slot-IsSpaced key start time now states (inl z) le = elim (Option-cases (states key)) [
  | inl e ↦ rw e (omega (arith, z, le))
  | inr (n, e) ↦ rw e (omega (arith, z, le))
]
slot-IsSpaced key start time now states (inr (next, e, spaced)) le = rw e (omega (arith, spaced))

reserve_statement-IsSpaced :
    (key : Text) (start time : ℕ) (r : Reservation) (states : States)
    → IsSpaced key start time states
    → start ≤ r.now
    → IsSpaced key start
        (if r.key =ₜ key then r.minimum_interval + time else time)
        (reserve_statement r.key r.minimum_interval r.now states)
unfolding reserve_statement
reserve_statement-IsSpaced key start time r states spaced le = elim (Bool-cases (r.key =ₜ key)) [
  | inl e ↦
      let same = (=ₜ_iff r.key key).0 e in
      let slot_le = slot-IsSpaced key start time r.now states spaced le in
      rw e (
        inr (
          slot r.now (states r.key) + r.minimum_interval,
          refl,
          subst
              (λ k.
                start + (r.minimum_interval + time) ≤ slot r.now (states k) + r.minimum_interval)
              (sym same) (omega (arith, slot_le)),
        ))
  | inr e ↦ rw e spaced
]

taken-cons :
    (key : Text) (r : Reservation) (rs : List Reservation) (time : ℕ)
    → (if r.key =ₜ key then r.minimum_interval + time else time) + taken key rs
      ≡ time + taken key (r ∷ rs)
taken-cons key r rs time = elim (Bool-cases (r.key =ₜ key)) [
  | inl e ↦ rw e (omega arith)
  | inr e ↦ rw e (omega arith)
]

reserve_all-IsSpaced :
    (key : Text) (start : ℕ) (rs : List Reservation) (time : ℕ) (states : States)
    → IsSpaced key start time states
    → All (λ r. start ≤ r.now) rs
    → IsSpaced key start (time + taken key rs) (reserve_all rs states)
reserve_all-IsSpaced key start [] time states spaced le =
    subst (λ x. IsSpaced key start x states) (omega arith) spaced
reserve_all-IsSpaced key start (r ∷ rs) time states spaced (first, rest) =
    subst
      (λ x.
        IsSpaced key start x
          (reserve_all rs (reserve_statement r.key r.minimum_interval r.now states)))
      (taken-cons key r rs time)
      (reserve_all-IsSpaced key start rs _ _
        (reserve_statement-IsSpaced key start time r states spaced first) rest)

-- Any reservations that workers commit from a time on, in their order, on any keys: whoever then
-- reserves the key, and waits for the delay that is returned, goes on no earlier than that time and
-- the intervals of all the earlier reservations of the key together.
pub reservations_spaced :
    (key : Text) (start : ℕ) (rs : List Reservation) (states : States) (now later : ℕ)
    → All (λ r. start ≤ r.now) rs
    → start ≤ now
    → start + taken key rs ≤ later + delay_at key now later (reserve_all rs states)
reservations_spaced key start rs states now later le first =
    let spaced = reserve_all-IsSpaced key start rs 0 states (inl refl) le in
    let bound =
      slot-IsSpaced key start (0 + taken key rs) now (reserve_all rs states) spaced first in
    omega (arith, bound)

-- What one call has committed: reservations of its key and interval, no more than it has attempts, and
-- if it returns, its delay is that of the last of them.
pub record IsServed (n : ℕ) (key : Text) (minimum_interval : ℕ) (states : States) (r : Reply)
    : Type 0 where
  pub made : List Reservation
  pub own : All (λ x. (x.key ≡ key) × (x.minimum_interval ≡ minimum_interval)) made
  pub few : length made ≤ n
  pub stored : r.states ≡ reserve_all made states
  pub served :
      (d : ℕ)
      → r.result ≡ ok d
      → (init : List Reservation) × (last : Reservation) × (made ≡ init ++ last ∷ [])
        × (d ≡ delay_at key last.now last.later (reserve_all init states))

fails-IsServed :
    (n : ℕ) (key : Text) (i : ℕ) (e : RateError) (states : States)
    → IsServed n key i states (record { result = err e; states = states })
fails-IsServed n key i e states = record {
  made = [];
  own = tt;
  few = omega arith;
  stored = refl;
  served = λ d q. absurd (ground (arith, q));
}

more-IsServed :
    (n : ℕ) (key : Text) (i : ℕ) (states : States) (r : Reply)
    → IsServed n key i states r
    → IsServed (suc n) key i states r
more-IsServed n key i states r s = record {
  made = s.made;
  own = s.own;
  few = omega (arith, s.few);
  stored = s.stored;
  served = s.served;
}

abbrev made_at : Text → ℕ → ℕ → ℕ → Reservation
made_at key i now later = record { key = key; minimum_interval = i; now = now; later = later }

reserve-IsServed :
    (n : ℕ) (key : Text) (i : ℕ) (env : List Attempt) (states : States)
    → IsServed n key i states (reserve n key i env states)
unfolding reserve
reserve-IsServed zero key i env states = fails-IsServed zero key i _ states
reserve-IsServed (suc n) key i [] states = fails-IsServed (suc n) key i _ states
reserve-IsServed (suc n) key i (aborted ∷ env) states =
    more-IsServed n key i states _ (reserve-IsServed n key i env states)
reserve-IsServed (suc n) key i (unacknowledged now later ∷ env) states =
    let s = reserve-IsServed n key i env (reserve_statement key i now states) in
    record {
      made = made_at key i now later ∷ s.made;
      own = ((refl, refl), s.own);
      few = omega (arith, s.few);
      stored = s.stored;
      served = λ d q.
          let (init, last, e, same) = s.served d q in
          (made_at key i now later ∷ init, last, ap (λ l. made_at key i now later ∷ l) e, same);
    }
reserve-IsServed (suc n) key i (acknowledged now later ∷ env) states = record {
  made = made_at key i now later ∷ [];
  own = ((refl, refl), tt);
  few = omega arith;
  stored = refl;
  served = λ d q. ([], made_at key i now later, refl, ground (arith, q));
}

valid : (rate : ℕ) → 1 ≤ rate → validate_number rate_configuration (float rate) ≡ ok rate
unfolding validate_number
valid rate le = ground arith

-- One call of `reserve_delay` with a positive rate, whatever becomes of its attempts, commits a sequence
-- of reservations and nothing else: of its own key, with the interval of the lower of its rate and the
-- platform's, and at most `max_retries` of them. If it returns, its delay is that of its last reservation
-- in the tables that the ones before have left.
pub reserve_delay-IsServed :
    (interval : ℕ → ℕ) (limiter : Limiter) (key : Text) (rate : ℕ) (env : List Attempt)
    (states : States)
    → 1 ≤ rate
    → IsServed limiter.max_retries key
        (interval (min limiter.platform_requests_per_second rate))
        states
        (reserve_delay interval limiter key (float rate) env states)
unfolding reserve_delay
reserve_delay-IsServed interval limiter key rate env states le =
    rw (valid rate le) (
      reserve-IsServed limiter.max_retries key (effective_interval interval limiter rate) env
        states)
