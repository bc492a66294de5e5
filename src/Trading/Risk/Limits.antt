-- ===== src/Trading/Risk/Limits.antt =====
-- When `RiskLimits.check_order` accepts an order.
use multi_platform_crypto_tr.Base.{◌≡◌, ◌↔◌, ◌⊎◌, true, false, Option, none, some, arith}
use multi_platform_crypto_tr.Base.Result.{ok, err}
use multi_platform_crypto_tr.Decimal.{Decimal}
use multi_platform_crypto_tr.Exceptions.{risk_limit_exceeded}
use multi_platform_crypto_tr.Trading.Risk.{RiskLimits, check_order}

module _ (dec : Decimal) where
  open dec use {D, d0, mul, le}

  abbrev pub RewardsEnough : Option D → D → Type 0
  RewardsEnough none least = Unit
  RewardsEnough (some rr) least = le least rr ≡ true

  -- What the limits ask of an order.
  abbrev pub IsWithin : RiskLimits dec → D → D → D → Option D → Type 0
  IsWithin limits notional equity lev rr =
      (le equity d0 ≡ false)
      × (le lev limits.max_leverage ≡ true)
      × (le notional (mul (mul equity lev) limits.max_position_margin_pct) ≡ true)
      × RewardsEnough rr limits.min_risk_reward

  -- An order passes the check exactly if the equity is positive, the leverage is at most the maximum,
  -- the notional is at most equity × leverage × the margin share, and the reward-to-risk ratio, if
  -- there is one, is at least the minimum. Every other order is refused with a risk-limit error.
  pub check_order_exact :
      (limits : RiskLimits dec) (notional equity lev : D) (rr : Option D)
      → ((check_order dec limits notional equity lev rr ≡ ok tt)
          ↔ IsWithin limits notional equity lev rr)
        × ((check_order dec limits notional equity lev rr ≡ ok tt)
            ⊎ (check_order dec limits notional equity lev rr ≡ err risk_limit_exceeded))
  unfolding check_order
  check_order_exact limits notional equity lev none =
      ((λ h. ground arith, λ h. ground arith), ground arith)
  check_order_exact limits notional equity lev (some r) =
      ((λ h. ground arith, λ h. ground arith), ground arith)
