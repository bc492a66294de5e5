-- ===== src/Analytics/Trend.antt =====
-- The indicators of trend, app/analytics/indicators.py: `adx`, `supertrend`, `pivot_points` and
-- `detect_trend`.
pub mod Aligned
pub mod Directional
mod Tests
use multi_platform_crypto_tr.Base.{
  ℕ, zero, suc, ◌+◌, ◌-◌, ◌*◌, String, Bool, true, false, not, ◌&&◌, Option, none, some, List, [],
  ◌∷◌, ◌++◌, length, map, ltb, if◌then◌else◌,
}
use multi_platform_crypto_tr.Base.Result.{Result, ok, err, and_then, map_ok}
use multi_platform_crypto_tr.Exceptions.{AppError, unhandled}
use multi_platform_crypto_tr.Analytics.Float.{Float, fmax, fmin}
use multi_platform_crypto_tr.Analytics.Indicators.{
  nones, defined, last_of, Candle, sma, wilder_smoothing, true_range, atr,
}
use multi_platform_crypto_tr.Analytics.Bands.{at_end}

pub data Direction : Type 0 where
  uptrend downtrend : Direction

module _ (fl : Float) where
  open fl use {F, of_ℕ, add, sub, mul, div, neg, lt, eq, abs}

  -- `move if (move > other and move > 0) else 0.0`
  abbrev moved : F → F → F
  moved move other = if lt other move && lt (of_ℕ 0) move then move else of_ℕ 0

  -- `plus_dm` and `minus_dm` after the first candle, with the candle before
  unfoldable pub movements : Candle F → List (Candle F) → List F × List F
  movements prev [] = ([], [])
  movements prev (c ∷ rest) =
      let up_move = sub c.high prev.high in
      let down_move = sub prev.low c.low in
      let (plus, minus) = movements c rest in
      (moved up_move down_move ∷ plus, moved down_move up_move ∷ minus)

  unfoldable pub directional_movement : List (Candle F) → List F × List F
  directional_movement [] = ([], [])
  directional_movement (c ∷ rest) =
      let (plus, minus) = movements c rest in (of_ℕ 0 ∷ plus, of_ℕ 0 ∷ minus)

  -- one step of the loop for `dx`
  abbrev dx_of : Option F → Option F → Option F → Option F
  dx_of (some a) (some p) (some m) =
      let plus_di = div (mul (of_ℕ 100) p) a in
      let minus_di = div (mul (of_ℕ 100) m) a in
      let denom = add plus_di minus_di in
      if eq a (of_ℕ 0)
      then none
      else if lt (of_ℕ 0) denom
      then some (div (mul (of_ℕ 100) (abs (sub plus_di minus_di))) denom)
      else some (of_ℕ 0)
  dx_of _ _ _ = none

  -- the loop for `dx`, over three series of one length
  unfoldable pub dx_loop : List (Option F) → List (Option F) → List (Option F) → List (Option F)
  dx_loop (a ∷ ranges) (p ∷ ps) (m ∷ ms) = dx_of a p m ∷ dx_loop ranges ps ms
  dx_loop _ _ _ = []

  unfoldable pub adx : List (Candle F) → ℕ → Result AppError (List (Option F))
  adx candles period =
      let n = length candles in
      let (plus_dm, minus_dm) = directional_movement candles in
      if ltb (n + 1) (2 * period)
      then ok (nones n)
      else and_then (wilder_smoothing fl (true_range fl candles) period) (λ atr_s.
        and_then (wilder_smoothing fl plus_dm period) (λ plus_s.
          and_then (wilder_smoothing fl minus_dm period) (λ minus_s.
            map_ok (at_end n)
              (wilder_smoothing fl (defined (dx_loop atr_s plus_s minus_s)) period))))

  -- one step of the loop of `supertrend`, where the range is defined: the line and the direction
  abbrev trend_step : F → F → F → Option F → Direction → F × Direction
  trend_step upper lower close none prev_dir = (lower, uptrend)
  trend_step upper lower close (some prev_line) uptrend =
      let lower' = fmax fl lower prev_line in
      if lt close lower' then (upper, downtrend) else (lower', uptrend)
  trend_step upper lower close (some prev_line) downtrend =
      let upper' = fmin fl upper prev_line in
      if lt upper' close then (lower, uptrend) else (upper', downtrend)

  unfoldable pub trend_loop :
      F
      → Option F
      → Direction
      → List (Candle F)
      → List (Option F)
      → List (Option F) × List (Option Direction)
  trend_loop multiplier prev_line prev_dir (c ∷ candles) (none ∷ atr_s) =
      let (line, direction) = trend_loop multiplier prev_line prev_dir candles atr_s in
      (none ∷ line, none ∷ direction)
  trend_loop multiplier prev_line prev_dir (c ∷ candles) (some a ∷ atr_s) =
      let hl2 = div (add c.high c.low) (of_ℕ 2) in
      let upper = add hl2 (mul multiplier a) in
      let lower = sub hl2 (mul multiplier a) in
      let (now, dir) = trend_step upper lower c.close prev_line prev_dir in
      let (line, direction) = trend_loop multiplier (some now) dir candles atr_s in
      (some now ∷ line, some dir ∷ direction)
  trend_loop multiplier prev_line prev_dir _ _ = ([], [])

  unfoldable pub supertrend :
      List (Candle F) → ℕ → F → Result AppError (List (Option F) × List (Option Direction))
  supertrend candles period multiplier =
      map_ok (trend_loop multiplier none uptrend candles) (atr fl candles period)

  pub record PivotPoints : Type 0 where
    pub pivot : F
    pub r1 : F
    pub s1 : F
    pub r2 : F
    pub s2 : F
    pub r3 : F
    pub s3 : F

  unfoldable pub pivot_points : F → F → F → PivotPoints
  pivot_points prev_high prev_low prev_close =
      let pivot = div (add (add prev_high prev_low) prev_close) (of_ℕ 3) in
      let two = of_ℕ 2 in
      record {
        pivot = pivot;
        r1 = sub (mul two pivot) prev_low;
        s1 = sub (mul two pivot) prev_high;
        r2 = add pivot (sub prev_high prev_low);
        s2 = sub pivot (sub prev_high prev_low);
        r3 = add prev_high (mul two (sub pivot prev_low));
        s3 = sub prev_low (mul two (sub prev_high pivot));
      }

  -- `0.001`
  abbrev threshold : F
  threshold = div (of_ℕ 1) (of_ℕ 1000)

  abbrev pub trend_of : Option F → Option F → String
  trend_of (some s) (some long) =
      let spread = if eq long (of_ℕ 0) then of_ℕ 0 else div (sub s long) long in
      if lt threshold spread then "up" else if lt spread (neg threshold) then "down" else "sideways"
  trend_of _ _ = "unknown"

  unfoldable pub detect_trend : List F → ℕ → ℕ → Result AppError String
  detect_trend closes short long =
      if ltb (length closes) long
      then ok "unknown"
      else and_then (and_then (sma fl closes short) last_of)
          (λ s. map_ok (trend_of s) (and_then (sma fl closes long) last_of))
