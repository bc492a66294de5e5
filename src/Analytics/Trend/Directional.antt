-- ===== src/Analytics/Trend/Directional.antt =====
-- Where the directional index is defined, and when a trend is detected.
use multi_platform_crypto_tr.Base.{
  ℕ, zero, suc, ◌+◌, ◌-◌, ◌*◌, ◌≤◌, ◌<◌, ◌≡◌, refl, inl, inr, true, false, Option, none, some, List,
  [], ◌∷◌, ◌++◌, arith, length, length-append, ltb, leb, String, eq_iff, ◌↔◌, is_none, max,
  Bool-cases,
}
use multi_platform_crypto_tr.Base.Result.{ok, and_then}
use multi_platform_crypto_tr.Analytics.Float.{Float}
use multi_platform_crypto_tr.Analytics.Indicators.{nones, defined, last_of, Candle, sma, true_range}
use multi_platform_crypto_tr.Analytics.Indicators.Aligned.{
  IsDefinedFrom, length-nones, nones-IsDefinedFrom, averages-IsAligned,
}
use multi_platform_crypto_tr.Analytics.Trend.Aligned.{length-true_range}
use multi_platform_crypto_tr.Analytics.Bands.{at_end}
use multi_platform_crypto_tr.Analytics.Trend.{
  movements, directional_movement, dx_loop, adx, trend_of, detect_trend,
}

module _ (fl : Float) where
  open fl use {F}

  length-movements :
      (prev : Candle F) (candles : List (Candle F))
      → (length (movements fl prev candles).0 ≡ length candles)
        × (length (movements fl prev candles).1 ≡ length candles)
  unfolding movements
  length-movements prev [] = (refl, refl)
  length-movements prev (c ∷ rest) = ground (arith, length-movements c rest)

  length-directional_movement :
      (candles : List (Candle F))
      → (length (directional_movement fl candles).0 ≡ length candles)
        × (length (directional_movement fl candles).1 ≡ length candles)
  unfolding directional_movement
  length-directional_movement [] = (refl, refl)
  length-directional_movement (c ∷ rest) = ground (arith, length-movements c rest)

  -- A series that is undefined before index `k`.
  abbrev pub IsUndefinedBefore : ℕ → List (Option F) → Type 0
  IsUndefinedBefore zero s = Unit
  IsUndefinedBefore (suc k) [] = Unit
  IsUndefinedBefore (suc k) (x ∷ s) = (is_none x ≡ true) × IsUndefinedBefore k s

  nones-IsUndefinedBefore :
      (n k j : ℕ) (s : List (Option F))
      → k ≤ n + j
      → IsUndefinedBefore j s
      → IsUndefinedBefore k (nones n ++ s)
  unfolding nones
  nones-IsUndefinedBefore n zero j s le h = tt
  nones-IsUndefinedBefore zero (suc k) zero s le h = absurd (omega (arith, le))
  nones-IsUndefinedBefore zero (suc k) (suc j) [] le h = tt
  nones-IsUndefinedBefore zero (suc k) (suc j) (x ∷ s) le h =
      (h.0, nones-IsUndefinedBefore zero k j s (omega (arith, le)) h.1)
  nones-IsUndefinedBefore (suc n) (suc k) j s le h =
      (refl, nones-IsUndefinedBefore n k j s (omega (arith, le)) h)

  from-IsUndefinedBefore : (k : ℕ) (s : List (Option F)) → IsDefinedFrom k s → IsUndefinedBefore k s
  from-IsUndefinedBefore zero s h = tt
  from-IsUndefinedBefore (suc k) [] h = tt
  from-IsUndefinedBefore (suc k) (x ∷ s) h = (h.0, from-IsUndefinedBefore k s h.1)

  -- the loop for `dx` gives values only from where the three averages are defined on
  dx_few :
      (k n : ℕ) (a p m : List (Option F))
      → length a ≡ n
      → length p ≡ n
      → length m ≡ n
      → IsDefinedFrom k a
      → length (defined (dx_loop fl a p m)) ≤ n - k
  unfolding dx_loop defined
  dx_few k n [] p m e f g h = omega arith
  dx_few k n (x ∷ a) [] m e f g h = absurd (omega (arith, e, f))
  dx_few k n (x ∷ a) (y ∷ p) [] e f g h = absurd (omega (arith, e, g))
  dx_few zero n (x ∷ a) (y ∷ p) (z ∷ m) e f g h = ground (
    arith,
    e,
    dx_few zero (n - 1) a p m (omega (arith, e)) (omega (arith, f)) (omega (arith, g)) h.1,
  )
  dx_few (suc k) n (none ∷ a) (y ∷ p) (z ∷ m) e f g h = ground (
    arith,
    e,
    dx_few k (n - 1) a p m (omega (arith, e)) (omega (arith, f)) (omega (arith, g)) h.1,
  )
  dx_few (suc k) n (some x ∷ a) (y ∷ p) (z ∷ m) e f g h = ground (arith, h.0)

  -- With a period above 0, the index is returned, is as long as its input, and is not defined before
  -- index `2 * period - 2`.
  pub adx_starts :
      (candles : List (Candle F)) (period : ℕ)
      → 0 < period
      → (out : List (Option F)) × (adx fl candles period ≡ ok out)
        × (length out ≡ length candles)
        × IsUndefinedBefore (2 * period - 2) out
  unfolding adx
  adx_starts candles period pos =
      let n = length candles in
      elim (Bool-cases (ltb (n + 1) (2 * period))) [
        | inl short ↦ (
          nones n,
          ground (arith, short),
          length-nones F n,
          from-IsUndefinedBefore (2 * period - 2) (nones n)
              (nones-IsDefinedFrom F n (2 * period - 2) (ground (arith, short))),
        )
        | inr enough ↦
            let dm = length-directional_movement candles in
            let (a, a_made, a_long, a_from) =
              (averages-IsAligned fl (true_range fl candles) period pos).2 in
            let (p, p_made, p_long, p_from) =
              (averages-IsAligned fl (directional_movement fl candles).0 period pos).2 in
            let (m, m_made, m_long, m_from) =
              (averages-IsAligned fl (directional_movement fl candles).1 period pos).2 in
            let few =
              dx_few (period - 1) n a p m (omega (arith, a_long, length-true_range fl candles))
                (omega (arith, p_long, dm.0)) (omega (arith, m_long, dm.1)) a_from in
            let (x, x_made, x_long, x_from) =
              (averages-IsAligned fl (defined (dx_loop fl a p m)) period pos).2 in
            (
              at_end n x,
              rw (enough, a_made, p_made, m_made, x_made) refl,
              omega (
                arith,
                length-append (nones (n - length x)) x,
                length-nones F (n - length x),
                x_long,
                few,
              ),
              nones-IsUndefinedBefore (n - length x) (2 * period - 2) (period - 1) x
                  (ground (arith, x_long, few, enough))
                  (from-IsUndefinedBefore (period - 1) x x_from),
            )
      ]

  last_of-IsDefinedFrom :
      (k : ℕ) (x : Option F) (s : List (Option F))
      → IsDefinedFrom k (x ∷ s)
      → (y : Option F) × (last_of (x ∷ s) ≡ ok y) × (is_none y ≡ leb (suc (length s)) k)
  last_of-IsDefinedFrom zero x [] h = (x, refl, ground (arith, h.0))
  last_of-IsDefinedFrom (suc k) x [] h = (x, refl, ground (arith, h.0))
  last_of-IsDefinedFrom zero x (z ∷ s) h =
      let (y, found, none_if) = last_of-IsDefinedFrom zero z s h.1 in
      (y, found, ground (arith, none_if))
  last_of-IsDefinedFrom (suc k) x (z ∷ s) h =
      let (y, found, none_if) = last_of-IsDefinedFrom k z s h.1 in
      (y, found, ground (arith, none_if))

  last_of_all :
      (k : ℕ) (s : List (Option F))
      → 0 < length s
      → IsDefinedFrom k s
      → (y : Option F) × (last_of s ≡ ok y) × (is_none y ≡ leb (length s) k)
  last_of_all k [] pos h = absurd (omega (arith, pos))
  last_of_all k (x ∷ s) pos h = last_of-IsDefinedFrom k x s h

  last_average :
      (values : List F) (period : ℕ)
      → 0 < period
      → 0 < length values
      → (y : Option F) × (and_then (sma fl values period) last_of ≡ ok y)
        × (is_none y ≡ ltb (length values) period)
  last_average values period pos some_values =
      let (out, made, long, from) = (averages-IsAligned fl values period pos).0 in
      let (y, found, none_if) =
        last_of_all (period - 1) out (omega (arith, long, some_values)) from in
      (y, rw made found, ground (arith, none_if, long))

  trend_of_unknown :
      (s l : Option F) → is_none l ≡ false → (trend_of fl s l ≡ "unknown") ↔ (is_none s ≡ true)
  trend_of_unknown none none h = (λ e. refl, λ e. refl)
  trend_of_unknown none (some l) h = (λ e. refl, λ e. refl)
  trend_of_unknown (some s) none h = ground (arith, h)
  trend_of_unknown (some s) (some l) h = (
    λ e. ground (
      arith,
      e,
      (eq_iff "up" "unknown").1,
      (eq_iff "down" "unknown").1,
      (eq_iff "sideways" "unknown").1,
    ),
    λ e. ground (arith, e),
  )

  -- With both periods above 0 a trend is returned, whatever the prices, and it is unknown exactly if
  -- there are fewer prices than the longer of the two periods.
  pub detect_trend_known :
      (closes : List F) (short long : ℕ)
      → 0 < short
      → 0 < long
      → (trend : String) × (detect_trend fl closes short long ≡ ok trend)
        × (trend ≡ "unknown" ↔ length closes < max short long)
  unfolding detect_trend
  detect_trend_known closes short long short_pos long_pos =
      elim (Bool-cases (ltb (length closes) long)) [
        | inl few ↦ ("unknown", rw few refl, (λ e. ground (arith, few), λ e. refl))
        | inr many ↦
            let some_prices : 0 < length closes = ground (arith, many) in
            let (s, s_made, s_none) = last_average closes short short_pos some_prices in
            let (l, l_made, l_none) = last_average closes long long_pos some_prices in
            let unknown = trend_of_unknown s l (ground (arith, l_none, many)) in
            (
              trend_of fl s l,
              rw (many, s_made, l_made) refl,
              (
                λ e. ground (arith, unknown.0 e, s_none),
                λ e. unknown.1 (ground (arith, s_none, many, e)),
              ),
            )
      ]
