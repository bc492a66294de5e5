-- ===== src/Analytics/Bands.antt =====
-- The indicators over sliding windows, app/analytics/indicators.py: `bollinger_bands` and
-- `stochastic`.
pub mod Aligned
use multi_platform_crypto_tr.Base.{
  ℕ, zero, suc, ◌+◌, ◌-◌, Bool, true, false, Option, none, some, List, [], ◌∷◌, ◌++◌, length, map,
  leb, ◌==◌, if◌then◌else◌,
}
use multi_platform_crypto_tr.Base.Result.{Result, ok, err, and_then, map_ok}
use multi_platform_crypto_tr.Exceptions.{AppError, unhandled}
use multi_platform_crypto_tr.Analytics.Float.{Float, fmax, fmin, total}
use multi_platform_crypto_tr.Analytics.Indicators.{nones, take, drop, defined, Candle, sma}

module _ {A : Type 0} where
  -- `values[i - period + 1 : i + 1]` for each `i` from `period - 1` on, as the first value and the
  -- others
  unfoldable pub windows : ℕ → List A → List (A × List A)
  windows period [] = []
  windows period (x ∷ xs) =
      let rest = windows period xs in
      if leb period (length (x ∷ xs)) then (x, take (period - 1) xs) ∷ rest else []

  -- the value at the end of a window
  abbrev pub last_in : A → List A → A
  last_in x [] = x
  last_in x (y ∷ ys) = last_in y ys

  -- `[None] * n`, with these values at its end
  abbrev pub at_end : ℕ → List (Option A) → List (Option A)
  at_end n values = nones (n - length values) ++ values

module _ (fl : Float) where
  open fl use {F, of_ℕ, add, sub, mul, div, sqrt, square, lt}

  pub record Bands : Type 0 where
    pub upper : List (Option F)
    pub middle : List (Option F)
    pub lower : List (Option F)

  abbrev deviations : F → List F → List F
  deviations mean values = map (λ x. square (sub x mean)) values

  -- `std` of a window
  abbrev pub std_of : ℕ → F → F → List F → F
  std_of period mean x xs = sqrt (div (total fl (of_ℕ 0) (deviations mean (x ∷ xs))) (of_ℕ period))

  -- the loop: the windows, and the means at their ends; a missing mean fails the assertion
  unfoldable pub bands_loop :
      ℕ
      → F
      → List (F × List F)
      → List (Option F)
      → Result AppError (List (Option F) × List (Option F))
  bands_loop period num_std [] means = ok ([], [])
  bands_loop period num_std (w ∷ ws) [] = err unhandled
  bands_loop period num_std (w ∷ ws) (none ∷ means) = err unhandled
  bands_loop period num_std ((x, xs) ∷ ws) (some mean ∷ means) =
      let width = mul num_std (std_of period mean x xs) in
      map_ok (λ (upper, lower). (some (add mean width) ∷ upper, some (sub mean width) ∷ lower))
        (bands_loop period num_std ws means)

  unfoldable pub bollinger_bands : List F → ℕ → F → Result AppError Bands
  bollinger_bands closes period num_std = and_then (sma fl closes period) (λ middle.
      map_ok
        (λ (upper, lower). record {
          upper = at_end (length closes) upper;
          middle = middle;
          lower = at_end (length closes) lower;
        })
        (bands_loop period num_std (windows period closes) (drop (period - 1) middle)))

  abbrev highest : F → List (Candle F) → F
  highest h [] = h
  highest h (c ∷ cs) = highest (fmax fl h c.high) cs

  abbrev lowest : F → List (Candle F) → F
  lowest l [] = l
  lowest l (c ∷ cs) = lowest (fmin fl l c.low) cs

  -- %K at the end of a window
  unfoldable pub percent_k : Candle F × List (Candle F) → F
  percent_k (c, cs) =
      let low = lowest c.low cs in
      let rng = sub (highest c.high cs) low in
      if lt (of_ℕ 0) rng then div (mul (of_ℕ 100) (sub (last_in c cs).close low)) rng else of_ℕ 0

  unfoldable pub stochastic :
      List (Candle F) → ℕ → ℕ → Result AppError (List (Option F) × List (Option F))
  stochastic candles k_period d_period =
      let n = length candles in
      let k = at_end n (map (λ w. some (percent_k w)) (windows k_period candles)) in
      if k_period == 0
      then err unhandled
      else map_ok (λ d_defined. (k, at_end n d_defined)) (sma fl (defined k) d_period)
