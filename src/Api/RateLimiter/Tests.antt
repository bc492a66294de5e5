-- ===== src/Api/RateLimiter/Tests.antt =====
-- Witnesses for the rate limiter: two requests pass in a minute, the third does not.
use multi_platform_crypto_tr.Base.{◌≡◌, ◌≤◌, arith, List, [], ◌∷◌}
use multi_platform_crypto_tr.Api.RateLimiter.Spec.{count_within}
use multi_platform_crypto_tr.Api.RateLimiter.Refines.{
  Arrival, fresh, answers, spec_answers, limiter_refines_spec,
}
use multi_platform_crypto_tr.Api.RateLimiter.Bounds.{passed_times, limit_per_minute}

abbrev requests : List Arrival
requests =
    record { now = 5; path = "/orders"; client = "10.0.0.1" }
    ∷ record { now = 6; path = "/orders"; client = "10.0.0.1" }
    ∷ record { now = 7; path = "/health"; client = "10.0.0.1" }
    ∷ record { now = 7; path = "/orders"; client = "10.0.0.1" }
    ∷ record { now = 8; path = "/orders"; client = "10.0.0.2" }
    ∷ []

limiter_refines_spec_example :
    answers requests (fresh 2 ("/health" ∷ []))
    ≡ spec_answers 2 ("/health" ∷ []) requests (λ client. [])
limiter_refines_spec_example = limiter_refines_spec 2 ("/health" ∷ []) requests (ground arith)

limit_per_minute_example :
    count_within 9 (passed_times "10.0.0.1" requests (fresh 2 ("/health" ∷ []))) ≤ 2
limit_per_minute_example =
    limit_per_minute 2 9 ("/health" ∷ []) "10.0.0.1" requests (ground arith) (ground arith)
