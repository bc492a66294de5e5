-- ===== src/Resilience/Breaker/Interleaving.antt =====
-- Many calls of one shared breaker at once: `CircuitBreaker.call` holds its lock only while it asks
-- for admission and while it records how the call ended, so other calls begin and end in between.
use multi_platform_crypto_tr.Base.{
  ℕ, zero, suc, ◌+◌, ◌≤◌, ◌<◌, ◌≡◌, refl, ◌≢◌, Bool, true, false, List, [], ◌∷◌, arith,
}
use multi_platform_crypto_tr.Resilience.Breaker.{
  closed, opened, half_open, CircuitBreaker, new, can_attempt, Ending, returned, raised, cancelled,
  record_ending, attempts, call,
}
use multi_platform_crypto_tr.Resilience.Breaker.Counting.{
  rejections, probing_rejects, threshold-record_ending,
}

-- The breaker and the number of calls that were let through and have not ended.
pub record Traffic : Type 0 where
  pub breaker : CircuitBreaker
  pub running : ℕ

pub data Event : Type 0 where
  begins : ℕ → Event  -- a call asks for admission, at this time
  ends : Ending → ℕ → Event  -- a running call ends, at this time

abbrev admit : Bool → ℕ → ℕ
admit true n = suc n
admit false n = n

-- One event; a call can end only if one is running.
unfoldable pub step : Traffic → Event → Traffic
step t (begins now) =
    let (admitted, b) = can_attempt now t.breaker in
    record t { breaker = b; running = admit admitted t.running }
step t (ends e now) = elim t.running [
  | zero ↦ t
  | suc n ↦ record t { breaker = record_ending e now t.breaker; running = n }
]

unfoldable pub run : List Event → Traffic → Traffic
run [] t = t
run (e ∷ es) t = run es (step t e)

abbrev pub start : ℕ → ℕ → Traffic
start threshold timeout = record { breaker = new threshold timeout; running = 0 }

-- What holds whatever the order in which calls begin and end.
pub record IsConsistent (b : CircuitBreaker) : Type 0 where
  -- the two fields that describe the probe agree
  pub probing : b.state ≡ half_open → b.probe_in_flight ≡ true
  pub idle : b.state ≢ half_open → b.probe_in_flight ≡ false
  -- a closed breaker has room for a failure
  pub room : b.state ≡ closed → b.failures < b.failure_threshold
  -- an open breaker has reached the threshold, or has failed its probe
  pub reached : b.state ≢ closed → b.failure_threshold ≤ b.failures

can_attempt-IsConsistent :
    (now : ℕ) (b : CircuitBreaker) → IsConsistent b → IsConsistent (can_attempt now b).1
unfolding can_attempt
can_attempt-IsConsistent now b h = ground arith

record_ending-IsConsistent :
    (e : Ending) (now : ℕ) (b : CircuitBreaker)
    → 0 < b.failure_threshold
    → IsConsistent b
    → IsConsistent (record_ending e now b)
unfolding record_ending
record_ending-IsConsistent e now b pos h = ground arith

abbrev Holds : Traffic → Type 0
Holds t = (0 < t.breaker.failure_threshold) × IsConsistent t.breaker

threshold-can_attempt :
    (now : ℕ) (b : CircuitBreaker) → (can_attempt now b).1.failure_threshold ≡ b.failure_threshold
unfolding can_attempt
threshold-can_attempt now b = ground arith

step-Holds : (t : Traffic) (e : Event) → Holds t → Holds (step t e)
unfolding step
step-Holds t (begins now) h =
    ground (arith, threshold-can_attempt now t.breaker, can_attempt-IsConsistent now t.breaker h.1)
step-Holds t (ends e now) h = ground (
  arith,
  threshold-record_ending e now t.breaker,
  record_ending-IsConsistent e now t.breaker h.0 h.1,
)

run-Holds : (es : List Event) (t : Traffic) → Holds t → Holds (run es t)
unfolding run
run-Holds [] t h = h
run-Holds (e ∷ es) t h = run-Holds es (step t e) (step-Holds t e h)

-- Through every interleaving of calls of a new breaker with a positive threshold: a probe is marked
-- as in flight exactly while the breaker is half open, a closed breaker counts fewer failures than
-- the threshold, and one that is not closed has counted at least that many.
pub run-IsConsistent :
    (threshold timeout : ℕ) (es : List Event)
    → 0 < threshold
    → IsConsistent (run es (start threshold timeout)).breaker
run-IsConsistent threshold timeout es pos =
    (run-Holds es (start threshold timeout) (pos, ground arith)).1

-- No call is cancelled.
abbrev pub Completes : List Event → Type 0
Completes [] = Unit
Completes (begins _ ∷ es) = Completes es
Completes (ends returned _ ∷ es) = Completes es
Completes (ends raised _ ∷ es) = Completes es
Completes (ends cancelled _ ∷ es) = ⊥

abbrev HasProbe : Traffic → Type 0
HasProbe t = t.breaker.state ≡ half_open → 0 < t.running

begins-HasProbe : (t : Traffic) (now : ℕ) → HasProbe t → HasProbe (step t (begins now))
unfolding step can_attempt
begins-HasProbe t now h = ground arith

returned-HasProbe : (t : Traffic) (now : ℕ) → HasProbe t → HasProbe (step t (ends returned now))
unfolding step record_ending
returned-HasProbe t now h = ground arith

raised-HasProbe : (t : Traffic) (now : ℕ) → HasProbe t → HasProbe (step t (ends raised now))
unfolding step record_ending
raised-HasProbe t now h = ground arith

run-HasProbe : (es : List Event) (t : Traffic) → Completes es → HasProbe t → HasProbe (run es t)
unfolding run
run-HasProbe [] t c h = h
run-HasProbe (begins now ∷ es) t c h =
    run-HasProbe es (step t (begins now)) c (begins-HasProbe t now h)
run-HasProbe (ends returned now ∷ es) t c h =
    run-HasProbe es (step t (ends returned now)) c (returned-HasProbe t now h)
run-HasProbe (ends raised now ∷ es) t c h =
    run-HasProbe es (step t (ends raised now)) c (raised-HasProbe t now h)
run-HasProbe (ends cancelled now ∷ es) t c h = absurd c

-- While no call is cancelled, a half-open breaker always waits for a running call, so that it cannot
-- stay half open once every call has ended.
pub half_open_awaits_call :
    (threshold timeout : ℕ) (es : List Event)
    → Completes es
    → (run es (start threshold timeout)).breaker.state ≡ half_open
    → 0 < (run es (start threshold timeout)).running
half_open_awaits_call threshold timeout es c = run-HasProbe es (start threshold timeout) c (λ e. cc)

-- If the probe of an open breaker is cancelled, every attempt that is made after it, at whatever
-- times, is refused as long as no call that was let through earlier ends in between: the breaker
-- stays half open with a probe that no call is making.
pub cancelled_probe_blocks :
    (begun ended : ℕ) (times : List ℕ) (b : CircuitBreaker)
    → b.state ≡ opened
    → b.opened_at + b.recovery_timeout ≤ begun
    → let (admitted, b') = call begun cancelled ended b in
      (admitted ≡ true) × (attempts times b' ≡ (rejections times, b')) × (b'.state ≡ half_open)
cancelled_probe_blocks begun ended times b e late =
    let gate : call begun cancelled ended b
        ≡ (true, record b { state = half_open; probe_in_flight = true }) =
      unfold call in ground arith in
    rw gate (
      refl,
      probing_rejects times (record b { state = half_open; probe_in_flight = true }) refl refl,
      refl,
    )
