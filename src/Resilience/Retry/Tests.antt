-- ===== src/Resilience/Retry/Tests.antt =====
-- Witnesses and runs for the retry helper.
use multi_platform_crypto_tr.Base.{ℕ, zero, suc, ◌≡◌, refl, Bool, true, [], ◌∷◌}
use multi_platform_crypto_tr.Resilience.Retry.{Outcome, returns, raises, returned, async_retry}
use multi_platform_crypto_tr.Resilience.Retry.Laws.{async_retry_ends}

abbrev flaky : ℕ → Outcome ℕ ℕ
flaky zero = raises 7
flaky (suc zero) = raises 8
flaky (suc (suc n)) = returns 42

abbrev all_caught : ℕ → Bool
all_caught e = true

async_retry_run :
    async_retry all_caught 300 flaky 3 200
    ≡ record { result = returned 42; pauses = 200 ∷ 300 ∷ []; calls = 3 }
unfolding async_retry
async_retry_run = refl

async_retry_ends_example :
    async_retry all_caught 300 flaky 3 200
    ≡ record { result = returned 42; pauses = 200 ∷ 300 ∷ []; calls = 3 }
async_retry_ends_example =
    async_retry_ends all_caught 300 flaky 200 2 0 (returned 42)
      ((7, refl, refl), ((8, refl, refl), tt)) refl
