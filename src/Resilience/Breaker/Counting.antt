-- ===== src/Resilience/Breaker/Counting.antt =====
-- When a breaker opens, and when it lets calls through again.
use multi_platform_crypto_tr.Base.{
  ℕ, suc, ◌+◌, ◌≤◌, ◌<◌, ◌≡◌, refl, Bool, true, false, List, [], ◌∷◌, ◌∙◌, leb, if◌then◌else◌,
  arith, All,
}
use multi_platform_crypto_tr.Resilience.Breaker.{
  closed, opened, half_open, CircuitBreaker, new, can_attempt, attempts, Ending, returned, raised,
  cancelled, record_ending, call,
}

-- The outcomes of calls made one after another, each ending at its own time.
pub record_all : List (Ending × ℕ) → CircuitBreaker → CircuitBreaker
record_all [] b = b
record_all ((e, now) ∷ es) b = record_all es (record_ending e now b)

-- The failures since the last success, after `n` of them, over the outcomes that were recorded.
abbrev pub failure_run : ℕ → List (Ending × ℕ) → ℕ
failure_run n [] = n
failure_run n ((returned, _) ∷ es) = failure_run 0 es
failure_run n ((raised, _) ∷ es) = failure_run (suc n) es
failure_run n ((cancelled, _) ∷ es) = failure_run n es

-- Up to the last outcome no run of failures reaches the threshold.
abbrev pub StaysBelow : ℕ → ℕ → List (Ending × ℕ) → Type 0
StaysBelow threshold n [] = n < threshold
StaysBelow threshold n ((returned, _) ∷ es) = StaysBelow threshold 0 es
StaysBelow threshold n ((raised, _) ∷ es) = (suc n < threshold) × StaysBelow threshold (suc n) es
StaysBelow threshold n ((cancelled, _) ∷ es) = StaysBelow threshold n es

-- what a breaker that has not opened looks like
abbrev IsCounting : ℕ → CircuitBreaker → Type 0
IsCounting n b = (b.state ≡ closed) × (b.failures ≡ n) × (b.opened_at ≡ 0)

counts_returned :
    (now : ℕ) (b : CircuitBreaker) → b.opened_at ≡ 0 → IsCounting 0 (record_ending returned now b)
unfolding record_ending
counts_returned now b z = ground arith

counts_raised :
    (n now : ℕ) (b : CircuitBreaker)
    → IsCounting n b
    → suc n < b.failure_threshold
    → IsCounting (suc n) (record_ending raised now b)
unfolding record_ending
counts_raised n now b h lt = ground arith

counts_cancelled :
    (n now : ℕ) (b : CircuitBreaker) → IsCounting n b → IsCounting n (record_ending cancelled now b)
unfolding record_ending
counts_cancelled n now b h = h

pub threshold-record_ending :
    (e : Ending) (now : ℕ) (b : CircuitBreaker)
    → (record_ending e now b).failure_threshold ≡ b.failure_threshold
unfolding record_ending
threshold-record_ending e now b = ground arith

counts_all :
    (es : List (Ending × ℕ)) (n : ℕ) (b : CircuitBreaker)
    → IsCounting n b
    → StaysBelow b.failure_threshold n es
    → IsCounting (failure_run n es) (record_all es b)
unfolding record_all
counts_all [] n b h below = h
counts_all ((returned, now) ∷ es) n b h below =
    counts_all es 0 (record_ending returned now b) (counts_returned now b h.2)
      (rw (threshold-record_ending returned now b) below)
counts_all ((raised, now) ∷ es) n b h below =
    counts_all es (suc n) (record_ending raised now b) (counts_raised n now b h below.0)
      (rw (threshold-record_ending raised now b) below.1)
counts_all ((cancelled, now) ∷ es) n b h below =
    counts_all es n (record_ending cancelled now b) (counts_cancelled n now b h)
      (rw (threshold-record_ending cancelled now b) below)

threshold-record_all :
    (es : List (Ending × ℕ)) (b : CircuitBreaker)
    → (record_all es b).failure_threshold ≡ b.failure_threshold
unfolding record_all
threshold-record_all [] b = refl
threshold-record_all ((e, now) ∷ es) b =
    threshold-record_all es (record_ending e now b) ∙ threshold-record_ending e now b

raised_after :
    (n now : ℕ) (b : CircuitBreaker)
    → IsCounting n b
    → let b' = record_ending raised now b in
      (b'.state ≡ (if leb b.failure_threshold (suc n) then opened else closed))
      × (b'.opened_at ≡ (if leb b.failure_threshold (suc n) then now else b.opened_at))
unfolding record_ending
raised_after n now b h = ground arith

-- A new breaker stays closed, and counts the failures since the last success, through any recorded
-- outcomes with no run of failures as long as the threshold; one more failure opens it, at the time
-- of that failure, exactly if the run then reaches the threshold. Cancelled calls count for nothing.
pub opens_exactly :
    (threshold timeout : ℕ) (es : List (Ending × ℕ)) (now : ℕ)
    → StaysBelow threshold 0 es
    → let b = record_all es (new threshold timeout) in
      let b' = record_ending raised now b in
      (b.state ≡ closed)
      × (b.failures ≡ failure_run 0 es)
      × (b'.state ≡ (if leb threshold (suc (failure_run 0 es)) then opened else closed))
      × (b'.opened_at ≡ (if leb threshold (suc (failure_run 0 es)) then now else 0))
opens_exactly threshold timeout es now below = ground (
  arith,
  counts_all es 0 (new threshold timeout) (refl, refl, refl) below,
  threshold-record_all es (new threshold timeout),
  raised_after (failure_run 0 es) now (record_all es (new threshold timeout)),
)

-- `n` rejections.
abbrev pub rejections : List ℕ → List Bool
rejections [] = []
rejections (_ ∷ times) = false ∷ rejections times

rejects_step :
    (now : ℕ) (b : CircuitBreaker)
    → b.state ≡ opened
    → now < b.opened_at + b.recovery_timeout
    → can_attempt now b ≡ (false, b)
unfolding can_attempt
rejects_step now b e lt = ground arith

-- An open breaker rejects every attempt made before its recovery time, and does not change.
pub opened_rejects :
    (times : List ℕ) (b : CircuitBreaker)
    → b.state ≡ opened
    → All (λ now. now < b.opened_at + b.recovery_timeout) times
    → attempts times b ≡ (rejections times, b)
unfolding attempts
opened_rejects [] b e early = refl
opened_rejects (now ∷ times) b e early =
    rw (rejects_step now b e early.0, opened_rejects times b e early.1)

pub probing_rejects :
    (times : List ℕ) (b : CircuitBreaker)
    → b.state ≡ half_open
    → b.probe_in_flight ≡ true
    → attempts times b ≡ (rejections times, b)
unfolding attempts
probing_rejects [] b e p = refl
probing_rejects (now ∷ times) b e p =
    let gate : can_attempt now b ≡ (false, b) = unfold can_attempt in ground arith in
    rw (gate, probing_rejects times b e p)

-- At its recovery time an open breaker lets exactly one attempt through: every further one, at any
-- time, is rejected until some call ends.
pub single_probe :
    (now : ℕ) (times : List ℕ) (b : CircuitBreaker)
    → b.state ≡ opened
    → b.opened_at + b.recovery_timeout ≤ now
    → attempts (now ∷ times) b
      ≡ (true ∷ rejections times, record b { state = half_open; probe_in_flight = true })
unfolding attempts
single_probe now times b e late =
    let gate : can_attempt now b ≡ (true, record b { state = half_open; probe_in_flight = true }) =
      unfold can_attempt in ground arith in
    rw (
      gate,
      probing_rejects times (record b { state = half_open; probe_in_flight = true }) refl refl,
    )

-- The probe decides: its success closes the breaker and forgets the failures, its failure opens the
-- breaker again from the time at which it ends, whatever the threshold.
pub probe_decides :
    (begun ended : ℕ) (b : CircuitBreaker)
    → b.state ≡ opened
    → b.opened_at + b.recovery_timeout ≤ begun
    → (call begun returned ended b
        ≡ (true, record b { state = closed; failures = 0; probe_in_flight = false }))
      × (call begun raised ended b ≡ (
        true,
        record b { failures = b.failures + 1; opened_at = ended; probe_in_flight = false },
      ))
unfolding call
probe_decides begun ended b e late = ground arith
