-- ===== src/Trading/Risk.antt =====
-- The risk calculators and limits of app/trading/risk.py.
pub mod Sizing
pub mod Limits
mod Tests
use multi_platform_crypto_tr.Base.{
  ◌≡◌, Bool, true, false, not, ◌&&◌, ◌||◌, Option, none, some, if◌then◌else◌,
}
use multi_platform_crypto_tr.Base.Result.{Result, ok, err}
use multi_platform_crypto_tr.Decimal.{Decimal, lt, deq}
use multi_platform_crypto_tr.Exceptions.{AppError, validation_error, risk_limit_exceeded}
use multi_platform_crypto_tr.Trading.{OrderSide, buy, sell}

module _ (dec : Decimal) where
  open dec use {D, d0, d1, add, sub, mul, div, abs, le}

  pub record PositionSizing : Type 0 where
    pub quantity : D
    pub risk_amount : D
    pub notional : D

  -- `notional > max_notional`: the cap by buying power
  capped : D → D → D → D → PositionSizing
  capped quantity risk_amount entry max_notional =
      let notional = mul quantity entry in
      let most = div max_notional entry in
      if lt dec max_notional notional
      then record { quantity = most; risk_amount = risk_amount; notional = mul most entry }
      else record { quantity = quantity; risk_amount = risk_amount; notional = notional }

  unfoldable pub position_size : D → D → D → D → D → Result AppError PositionSizing
  unfolding capped
  position_size balance risk_fraction entry stop lev =
      if le balance d0
      then err validation_error
      else if not (lt dec d0 risk_fraction && le risk_fraction d1)
      then err validation_error
      else if le entry d0 || le stop d0
      then err validation_error
      else if deq dec entry stop
      then err validation_error
      else if le lev d0
      then err validation_error
      else let risk_amount = mul balance risk_fraction in
        ok (capped (div risk_amount (abs (sub entry stop))) risk_amount entry (mul balance lev))

  gross : OrderSide → D → D → D → D
  gross buy entry exit qty = mul (sub exit entry) qty
  gross sell entry exit qty = mul (sub entry exit) qty

  unfoldable pub pnl : OrderSide → D → D → D → D → Result AppError D
  unfolding gross
  pnl side entry exit qty fee =
      if le qty d0 || le entry d0 || le exit d0
      then err validation_error
      else ok (sub (gross side entry exit qty) (mul (mul (add entry exit) qty) fee))

  liquidates_at : OrderSide → D → D → D → D
  liquidates_at buy entry imr mmr = mul entry (add (sub d1 imr) mmr)
  liquidates_at sell entry imr mmr = mul entry (sub (add d1 imr) mmr)

  unfoldable pub liquidation_price : OrderSide → D → D → D → Result AppError D
  unfolding liquidates_at
  liquidation_price side entry lev mmr =
      if le lev d0 || le entry d0
      then err validation_error
      else ok (liquidates_at side entry (div d1 lev) mmr)

  unfoldable pub risk_reward_ratio : D → D → D → Result AppError D
  risk_reward_ratio entry stop target =
      let risk = abs (sub entry stop) in
      if deq dec risk d0 then err validation_error else ok (div (abs (sub target entry)) risk)

  pub record RiskLimits : Type 0 where
    pub max_leverage : D
    pub max_position_margin_pct : D
    pub min_risk_reward : D

  -- `rr is not None and rr < min_risk_reward`
  below_minimum : Option D → D → Bool
  below_minimum none least = false
  below_minimum (some rr) least = lt dec rr least

  unfoldable pub check_order : RiskLimits → D → D → D → Option D → Result AppError (Unit {0})
  unfolding below_minimum
  check_order limits notional equity lev rr =
      if le equity d0
      then err risk_limit_exceeded
      else if lt dec limits.max_leverage lev
      then err risk_limit_exceeded
      else if lt dec (mul (mul equity lev) limits.max_position_margin_pct) notional
      then err risk_limit_exceeded
      else if below_minimum rr limits.min_risk_reward
      then err risk_limit_exceeded
      else ok tt
