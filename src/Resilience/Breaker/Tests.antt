-- ===== src/Resilience/Breaker/Tests.antt =====
-- Witnesses for the circuit breaker: a breaker that opens after two failures, for ten ticks.
use multi_platform_crypto_tr.Base.{ℕ, ◌≡◌, refl, true, List, [], ◌∷◌, arith}
use multi_platform_crypto_tr.Resilience.Breaker.{
  closed, opened, half_open, CircuitBreaker, new, Ending, returned, raised, cancelled,
  record_ending, call, attempts,
}
use multi_platform_crypto_tr.Resilience.Breaker.Counting.{record_all, opens_exactly, rejections}
use multi_platform_crypto_tr.Resilience.Breaker.Interleaving.{
  Event, begins, ends, start, run, IsConsistent, run-IsConsistent, cancelled_probe_blocks,
}

abbrev tripped : CircuitBreaker
tripped = record (new 2 10) { state = opened; failures = 2; opened_at = 5 }

abbrev mixed : List (Ending × ℕ)
mixed = (raised, 1) ∷ (returned, 2) ∷ (raised, 3) ∷ (cancelled, 4) ∷ []

opens_exactly_example :
    let b = record_all mixed (new 2 10) in
    let b' = record_ending raised 5 b in
    (b.state ≡ closed) × (b.failures ≡ 1) × (b'.state ≡ opened) × (b'.opened_at ≡ 5)
opens_exactly_example = opens_exactly 2 10 mixed 5 (omega arith)

-- Two calls begin, both fail; at its recovery time the probe begins.
abbrev probing : List Event
probing =
    begins 1 ∷ begins 2 ∷ ends raised 3 ∷ ends raised 5 ∷ begins 6 ∷ begins 15 ∷ begins 16 ∷ []

run-IsConsistent_example : IsConsistent (run probing (start 2 10)).breaker
run-IsConsistent_example = run-IsConsistent 2 10 probing (omega arith)

cancelled_probe_blocks_example :
    let (admitted, b') = call 15 cancelled 16 tripped in
    (admitted ≡ true)
    × (attempts (17 ∷ 100000 ∷ []) b' ≡ (rejections (17 ∷ 100000 ∷ []), b'))
    × (b'.state ≡ half_open)
cancelled_probe_blocks_example =
    cancelled_probe_blocks 15 16 (17 ∷ 100000 ∷ []) tripped refl (omega arith)
