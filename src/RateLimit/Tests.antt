-- ===== src/RateLimit/Tests.antt =====
-- Two workers at one target: the second waits, and an acknowledgement is lost.
use ai_api_security_platform.Prelude.{
  ℕ, ◌+◌, ◌-◌, ◌≡◌, ◌≤◌, refl, none, List, [], ◌∷◌, Text, text, ok, arith,
}
use ai_api_security_platform.Execution.Database.{Attempt, unacknowledged, acknowledged}
use ai_api_security_platform.RateLimit.{
  float, count, Limiter, States, validate_number, create_limiter, delay_at, reserve_delay, reserve,
  reserve_statement,
}
use ai_api_security_platform.RateLimit.Spacing.{
  Reservation, reserve_all, taken, IsServed, reservations_spaced, reserve_delay-IsServed,
}

abbrev key : Text
key = text "target:4"

abbrev limiter : Limiter
limiter = record { platform_requests_per_second = 10; max_retries = 3 }

abbrev interval : ℕ → ℕ
interval rate = 1000 - rate

abbrev no_states : States
no_states = λ _. none

abbrev env : List Attempt
env = unacknowledged 20 21 ∷ acknowledged 30 31 ∷ []

-- The call reserves twice: its delay is that of the second reservation, after the lost one.
delayed : (reserve_delay interval limiter key (float 40) env no_states).result ≡ ok 979
unfolding reserve_delay validate_number reserve reserve_statement
delayed = refl

reserve_delay-IsServed_example :
    IsServed 3 key 990 no_states (reserve_delay interval limiter key (float 40) env no_states)
reserve_delay-IsServed_example =
    reserve_delay-IsServed interval limiter key 40 env no_states (omega arith)

abbrev reservation : Text → ℕ → Reservation
reservation k now = record { key = k; minimum_interval = 990; now = now; later = now }

abbrev history : List Reservation
history = reservation key 20 ∷ reservation (text "target:5") 22 ∷ reservation key 25 ∷ []

reservations_spaced_example :
    20 + taken key history ≤ 31 + delay_at key 30 31 (reserve_all history no_states)
reservations_spaced_example =
    reservations_spaced key 20 history no_states 30 31
      (omega arith, (omega arith, (omega arith, tt))) (omega arith)

created : create_limiter (float 10) (count 3) (float 1) ≡ ok limiter
unfolding create_limiter validate_number
created = refl
