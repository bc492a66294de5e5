-- ===== src/Analytics/Trend/Tests.antt =====
-- Witness for the trend line.
use multi_platform_crypto_tr.Base.{ℕ, ◌≡◌, Option, none, List, arith, length}
use multi_platform_crypto_tr.Base.Result.{ok}
use multi_platform_crypto_tr.Analytics.Indicators.Aligned.{IsDefinedFrom}
use multi_platform_crypto_tr.Analytics.Samples.{whole, candles}
use multi_platform_crypto_tr.Analytics.Trend.{Direction, uptrend, supertrend}
use multi_platform_crypto_tr.Analytics.Trend.Aligned.{Ratchets, supertrend-Ratchets}

supertrend-Ratchets_example :
    (line : List (Option ℕ)) × (direction : List (Option Direction)) × (supertrend whole candles 2 3
      ≡ ok (line, direction))
    × (length line ≡ 3)
    × (length direction ≡ 3)
    × IsDefinedFrom 1 line
    × IsDefinedFrom 1 direction
    × Ratchets whole none uptrend line direction
supertrend-Ratchets_example =
    supertrend-Ratchets whole candles 2 3 (omega arith) (λ x. ground arith)
