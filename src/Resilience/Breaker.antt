-- ===== src/Resilience/Breaker.antt =====
-- `CircuitBreaker` of app/core/resilience.py. The monotonic clock is read by the caller and passed
-- in, as a number of nanoseconds. `clock() - opened_at >= timeout` is written as a sum, since `-`
-- stops at 0 here.
pub mod Counting
pub mod Interleaving
mod Tests
use multi_platform_crypto_tr.Base.{
  ℕ, ◌+◌, Bool, true, false, ◌||◌, leb, if◌then◌else◌, List, [], ◌∷◌,
}

-- `CircuitState`; `open` is a keyword here
pub data CircuitState : Type 0 where
  closed opened half_open : CircuitState

pub record CircuitBreaker : Type 0 where
  pub failure_threshold : ℕ
  pub recovery_timeout : ℕ
  pub state : CircuitState
  pub failures : ℕ
  pub opened_at : ℕ
  pub probe_in_flight : Bool

-- `CircuitBreaker(name=..., failure_threshold=..., recovery_timeout=...)`
abbrev pub new : ℕ → ℕ → CircuitBreaker
new failure_threshold recovery_timeout = record {
  failure_threshold = failure_threshold;
  recovery_timeout = recovery_timeout;
  state = closed;
  failures = 0;
  opened_at = 0;
  probe_in_flight = false;
}

attempt_in : CircuitState → ℕ → CircuitBreaker → Bool × CircuitBreaker
attempt_in closed now b = (true, b)
attempt_in opened now b =
    if leb (b.opened_at + b.recovery_timeout) now
    then (true, record b { state = half_open; probe_in_flight = true })
    else (false, b)
attempt_in half_open now b =
    if b.probe_in_flight then (false, b) else (true, record b { probe_in_flight = true })

-- `_can_attempt`, with the breaker that it leaves
unfoldable pub can_attempt : ℕ → CircuitBreaker → Bool × CircuitBreaker
unfolding attempt_in
can_attempt now b = attempt_in b.state now b

unfoldable pub record_success : CircuitBreaker → CircuitBreaker
record_success b = record b { failures = 0; state = closed; probe_in_flight = false }

abbrev pub is_half_open : CircuitState → Bool
is_half_open half_open = true
is_half_open _ = false

unfoldable pub record_failure : ℕ → CircuitBreaker → CircuitBreaker
record_failure now b =
    let b' = record b { failures = b.failures + 1; probe_in_flight = false } in
    if is_half_open b'.state || leb b'.failure_threshold b'.failures
    then record b' { state = opened; opened_at = now }
    else b'

-- How the guarded call ends. `except Exception` does not see a cancelled task, whose
-- `CancelledError` is a `BaseException`: nothing is recorded then.
pub data Ending : Type 0 where
  returned : Ending
  raised : Ending
  cancelled : Ending

-- What `call` records when the call that it let through ends.
unfoldable pub record_ending : Ending → ℕ → CircuitBreaker → CircuitBreaker
unfolding record_success record_failure
record_ending returned now b = record_success b
record_ending raised now b = record_failure now b
record_ending cancelled now b = b

-- `call` with nothing else running: whether the call was let through, and the breaker afterwards.
unfoldable pub call : ℕ → Ending → ℕ → CircuitBreaker → Bool × CircuitBreaker
unfolding can_attempt record_ending
call begun ending ended b =
    let (admitted, b') = can_attempt begun b in
    (admitted, if admitted then record_ending ending ended b' else b')

-- Attempts made one after another while no call ends, by the times at which they are made.
unfoldable pub attempts : List ℕ → CircuitBreaker → List Bool × CircuitBreaker
unfolding can_attempt
attempts [] b = ([], b)
attempts (now ∷ times) b =
    let (admitted, b') = can_attempt now b in
    let (rest, b'') = attempts times b' in (admitted ∷ rest, b'')
