-- ===== src/Security/Time.antt =====
-- Clock readings, `time.monotonic()` and `time.time()`, are numbers of nanoseconds.
use multi_platform_crypto_tr.Base.{ℕ, ◌*◌}

abbrev pub second : ℕ
second = 1000000000

abbrev pub seconds : ℕ → ℕ
seconds n = n * second
