-- ===== src/Trading/Risk/Tests.antt =====
-- Witnesses for the risk calculators: 1000 at 1 %, bought at 100 with a stop at 50.
use multi_platform_crypto_tr.Base.{◌≡◌, refl, true}
use multi_platform_crypto_tr.Base.Result.{ok}
use multi_platform_crypto_tr.Decimal.Fixed.{pos, fixed, fixed-IsRounding}
use multi_platform_crypto_tr.Trading.Risk.{PositionSizing, position_size, RiskLimits}
use multi_platform_crypto_tr.Trading.Risk.Sizing.{position_size_bounds}

abbrev limits : RiskLimits fixed
limits = record {
  max_leverage = pos 200000;
  max_position_margin_pct = pos 5000;
  min_risk_reward = pos 10000;
}

abbrev sizing : PositionSizing fixed
sizing = record { quantity = pos 2000; risk_amount = pos 100000; notional = pos 200000 }

position_size_run :
    position_size fixed (pos 10000000) (pos 100) (pos 1000000) (pos 500000) (pos 10000) ≡ ok sizing
unfolding position_size
position_size_run = refl

position_size_bounds_example :
    (pos 100000 ≡ pos 100000)
    × (pos 200000 ≡ pos 200000)
    × (fixed.le (pos 200000) (pos 10000000) ≡ true)
    × (fixed.le (pos 100000) (pos 100000) ≡ true)
position_size_bounds_example =
    position_size_bounds fixed fixed-IsRounding (pos 10000000) (pos 100) (pos 1000000) (pos 500000)
      (pos 10000) sizing position_size_run refl refl refl refl refl
