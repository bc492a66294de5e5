-- ===== src/Analytics/Indicators.antt =====
-- The indicators of app/analytics/indicators.py. A series is a list, with `none` where an indicator is
-- not defined yet; `ValueError` is `unhandled`.
pub mod Aligned
pub mod Convergence
use multi_platform_crypto_tr.Base.{
  ℕ, zero, suc, ◌+◌, ◌-◌, Bool, true, false, not, ◌&&◌, Option, none, some, List, [], ◌∷◌, ◌++◌,
  length, map, ltb, leb, ◌==◌, if◌then◌else◌,
}
use multi_platform_crypto_tr.Base.Result.{Result, ok, err, and_then, map_ok}
use multi_platform_crypto_tr.Exceptions.{AppError, unhandled}
use multi_platform_crypto_tr.Analytics.Float.{Float, fmax, total}

-- `[None] * n`
unfoldable pub nones : {A : Type 0} → ℕ → List (Option A)
nones zero = []
nones (suc n) = none ∷ nones n

-- `values[:n]`
unfoldable pub take : {A : Type 0} → ℕ → List A → List A
take zero xs = []
take (suc n) [] = []
take (suc n) (x ∷ xs) = x ∷ take n xs

-- `values[n:]`
unfoldable pub drop : {A : Type 0} → ℕ → List A → List A
drop zero xs = xs
drop (suc n) [] = []
drop (suc n) (x ∷ xs) = drop n xs

-- `series[-1]`, an `IndexError` on an empty series
abbrev pub last_of : {A : Type 0} → List A → Result AppError A
last_of [] = err unhandled
last_of (x ∷ []) = ok x
last_of (x ∷ y ∷ xs) = last_of (y ∷ xs)

-- `[v for v in series if v is not None]`
unfoldable pub defined : {A : Type 0} → List (Option A) → List A
defined [] = []
defined (none ∷ s) = defined s
defined (some v ∷ s) = v ∷ defined s

pub record Candle (F : Type 0) : Type 0 where
  pub high : F
  pub low : F
  pub close : F
  pub volume : F

module _ (fl : Float) where
  open fl use {F, of_ℕ, add, sub, mul, div, neg, lt, eq, abs}

  -- the mean of the first `period` values
  abbrev pub seed : ℕ → List F → F
  seed period values = div (total fl (of_ℕ 0) (take period values)) (of_ℕ period)

  -- the loop of `sma`: the values that enter the window, and those that leave it
  unfoldable pub slide : ℕ → F → List F → List F → List (Option F)
  slide period window_sum [] old = []
  slide period window_sum (v ∷ new) [] = []
  slide period window_sum (v ∷ new) (o ∷ old) =
      let window_sum' = add window_sum (sub v o) in
      some (div window_sum' (of_ℕ period)) ∷ slide period window_sum' new old

  -- the loop of `ema` and of `wilder_smoothing`
  unfoldable pub smooth : (F → F → F) → F → List F → List (Option F)
  smooth next prev [] = []
  smooth next prev (v ∷ values) = let prev' = next prev v in some prev' ∷ smooth next prev' values

  -- What the three averages share: nothing for a short series, and the seed at index `period - 1`.
  abbrev pub from_seed : List F → ℕ → (F → List (Option F)) → Result AppError (List (Option F))
  from_seed values period rest =
      if period == 0
      then err unhandled
      else if ltb (length values) period
      then ok (nones (length values))
      else (let s = seed period values in ok (nones (period - 1) ++ some s ∷ rest s))

  unfoldable pub sma : List F → ℕ → Result AppError (List (Option F))
  sma values period =
      from_seed values period
        λ s. slide period (total fl (of_ℕ 0) (take period values)) (drop period values) values

  -- `(value - prev) * multiplier + prev`
  abbrev pub ema_next : ℕ → F → F → F
  ema_next period prev v = add (mul (sub v prev) (div (of_ℕ 2) (of_ℕ (period + 1)))) prev

  unfoldable pub ema : List F → ℕ → Result AppError (List (Option F))
  ema values period = from_seed values period λ s. smooth (ema_next period) s (drop period values)

  -- `(prev * (period - 1) + value) / period`
  abbrev pub wilder_next : ℕ → F → F → F
  wilder_next period prev v = div (add (mul prev (of_ℕ (period - 1))) v) (of_ℕ period)

  unfoldable pub wilder_smoothing : List F → ℕ → Result AppError (List (Option F))
  wilder_smoothing values period =
      from_seed values period λ s. smooth (wilder_next period) s (drop period values)

  -- `closes[i] - closes[i - 1]` from index 1 on
  unfoldable pub changes : List F → List F
  changes [] = []
  changes (a ∷ []) = []
  changes (a ∷ b ∷ rest) = sub b a ∷ changes (b ∷ rest)

  -- `_rsi_from`
  abbrev pub rsi_from : F → F → F
  rsi_from avg_gain avg_loss =
      if eq avg_loss (of_ℕ 0)
      then of_ℕ 100
      else sub (of_ℕ 100) (div (of_ℕ 100) (add (of_ℕ 1) (div avg_gain avg_loss)))

  abbrev pub gain : F → F
  gain change = fmax fl change (of_ℕ 0)

  abbrev pub loss : F → F
  loss change = fmax fl (neg change) (of_ℕ 0)

  -- the loop of `rsi`, on the changes after the first `period`
  unfoldable pub rsi_loop : ℕ → F → F → List F → List (Option F)
  rsi_loop period avg_gain avg_loss [] = []
  rsi_loop period avg_gain avg_loss (change ∷ rest) =
      let avg_gain' = wilder_next period avg_gain (gain change) in
      let avg_loss' = wilder_next period avg_loss (loss change) in
      some (rsi_from avg_gain' avg_loss') ∷ rsi_loop period avg_gain' avg_loss' rest

  unfoldable pub rsi : List F → ℕ → Result AppError (List (Option F))
  rsi closes period =
      if period == 0
      then err unhandled
      else if leb (length closes) period
      then ok (nones (length closes))
      else (let cs = changes closes in
          let avg_gain = seed period (map gain cs) in
          let avg_loss = seed period (map loss cs) in
          ok (
            nones period
            ++ some (rsi_from avg_gain avg_loss)
              ∷ rsi_loop period avg_gain avg_loss (drop period cs)))

  abbrev both : Option F → Option F → Option F
  both (some f) (some s) = some (sub f s)
  both _ _ = none

  -- `zip(..., strict=True)`, on series of one length, with the difference where both are defined
  unfoldable pub differences : List (Option F) → List (Option F) → List (Option F)
  differences [] s = []
  differences (x ∷ f) [] = []
  differences (x ∷ f) (y ∷ s) = both x y ∷ differences f s

  pub record Macd : Type 0 where
    pub line : List (Option F)
    pub signal : List (Option F)
    pub hist : List (Option F)

  -- the signal line and the histogram, once the signal of the defined part of the line is there
  abbrev pub placed : List (Option F) → List (Option F) → Macd
  placed line signal_defined =
      let offset = length line - length (defined line) in
      record {
        line = line;
        signal = nones offset ++ signal_defined;
        hist = nones offset ++ differences (drop offset line) signal_defined;
      }

  unfoldable pub macd : List F → ℕ → ℕ → ℕ → Result AppError Macd
  macd closes fast slow signal =
      if ltb fast slow && ltb 0 fast && ltb 0 signal
      then and_then (ema closes fast) (λ f.
        and_then (ema closes slow)
          (λ s. let line = differences f s in map_ok (placed line) (ema (defined line) signal)))
      else err unhandled

  -- the loop of `true_range`, with the close of the candle before
  unfoldable pub ranges_after : F → List (Candle F) → List F
  ranges_after prev_close [] = []
  ranges_after prev_close (c ∷ rest) =
      fmax fl (fmax fl (sub c.high c.low) (abs (sub c.high prev_close)))
        (abs (sub c.low prev_close))
      ∷ ranges_after c.close rest

  unfoldable pub true_range : List (Candle F) → List F
  true_range [] = []
  true_range (c ∷ rest) = sub c.high c.low ∷ ranges_after c.close rest

  unfoldable pub atr : List (Candle F) → ℕ → Result AppError (List (Option F))
  atr candles period = wilder_smoothing (true_range candles) period

  -- the loop of `vwap`
  unfoldable pub vwap_loop : F → F → List (Candle F) → List (Option F)
  vwap_loop cum_pv cum_vol [] = []
  vwap_loop cum_pv cum_vol (c ∷ rest) =
      let typical = div (add (add c.high c.low) c.close) (of_ℕ 3) in
      let cum_pv' = add cum_pv (mul typical c.volume) in
      let cum_vol' = add cum_vol c.volume in
      (if lt (of_ℕ 0) cum_vol' then some (div cum_pv' cum_vol') else none)
      ∷ vwap_loop cum_pv' cum_vol' rest

  abbrev pub vwap : List (Candle F) → List (Option F)
  vwap candles = vwap_loop (of_ℕ 0) (of_ℕ 0) candles
