-- ===== src/Trading/Risk/Sizing.antt =====
-- What `position_size` guarantees.
use multi_platform_crypto_tr.Base.{◌≡◌, ◌↔◌, ◌⊎◌, true, false, arith}
use multi_platform_crypto_tr.Base.Result.{ok, err, is_ok}
use multi_platform_crypto_tr.Decimal.{Decimal, IsRounding, deq}
use multi_platform_crypto_tr.Exceptions.{validation_error}
use multi_platform_crypto_tr.Trading.Risk.{PositionSizing, capped, position_size}

module _ (dec : Decimal) where
  open dec use {D, d0, d1, add, sub, mul, div, abs, le}

  -- The inputs that `position_size` accepts.
  pub record IsSizable (balance risk_fraction entry stop lev : D) : Type 0 where
    pub balance_pos : le balance d0 ≡ false
    pub fraction_pos : le risk_fraction d0 ≡ false
    pub fraction_le_one : le risk_fraction d1 ≡ true
    pub entry_pos : le entry d0 ≡ false
    pub stop_pos : le stop d0 ≡ false
    pub differ : deq dec entry stop ≡ false
    pub lev_pos : le lev d0 ≡ false

  sized :
      (balance risk_fraction entry stop lev : D) (s : PositionSizing dec)
      → position_size dec balance risk_fraction entry stop lev ≡ ok s
      → IsSizable balance risk_fraction entry stop lev
        × (s
            ≡ capped dec
                (div (mul balance risk_fraction) (abs (sub entry stop)))
                (mul balance risk_fraction)
                entry
                (mul balance lev))
  unfolding position_size
  sized balance risk_fraction entry stop lev s h = ground arith

  -- `position_size` returns a sizing exactly if the balance, both prices and the leverage are
  -- positive, the risked fraction lies above 0 and at most at 1, and the prices differ; what it raises
  -- otherwise is a validation error.
  pub position_size_defined :
      (balance risk_fraction entry stop lev : D)
      → ((is_ok (position_size dec balance risk_fraction entry stop lev) ≡ true)
          ↔ IsSizable balance risk_fraction entry stop lev)
        × ((is_ok (position_size dec balance risk_fraction entry stop lev) ≡ true)
            ⊎ (position_size dec balance risk_fraction entry stop lev ≡ err validation_error))
  unfolding position_size
  position_size_defined balance risk_fraction entry stop lev =
      ((λ h. ground arith, λ h. ground arith), ground arith)

module _ (dec : Decimal) (laws : IsRounding dec) where
  open dec use {D, d0, d1, add, sub, mul, div, abs, le}

  module _ (balance risk_fraction entry stop lev : D) where
    abbrev power : D
    power = mul balance lev

    abbrev per_unit : D
    per_unit = abs (sub entry stop)

    -- A sizing that is returned has a notional of quantity × entry price that is within the buying
    -- power balance × leverage, and being stopped out loses no more than balance × risked fraction,
    -- if the divisions by the entry price and by the risk of one unit are exact.
    pub position_size_bounds :
        (s : PositionSizing dec)
        → position_size dec balance risk_fraction entry stop lev ≡ ok s
        → mul (div power entry) entry ≡ power
        → mul (div (mul balance risk_fraction) per_unit) per_unit ≡ mul balance risk_fraction
        → le d0 power ≡ true
        → le d0 (div power entry) ≡ true
        → le d0 per_unit ≡ true
        → (s.risk_amount ≡ mul balance risk_fraction)
          × (s.notional ≡ mul s.quantity entry)
          × (le s.notional power ≡ true)
          × (le (mul s.quantity per_unit) (mul balance risk_fraction) ≡ true)
    unfolding capped
    position_size_bounds s h power_exact risk_exact power_ok most_ok unit_ok =
        let q = div (mul balance risk_fraction) per_unit in
        ground (
          arith,
          sized dec balance risk_fraction entry stop lev s h,
          laws.le_refl power,
          laws.le_refl (mul balance risk_fraction),
          laws.div_le_of_lt_mul power q entry,
          laws.mul_mono (div power entry) q per_unit,
        )
