-- ===== src/Analytics/Bands/Aligned.antt =====
-- Where the indicators over windows are defined.
use multi_platform_crypto_tr.Base.{
  ℕ, zero, suc, ◌+◌, ◌-◌, ◌≤◌, ◌<◌, ◌≡◌, refl, inl, inr, false, Option, none, some, List, [], ◌∷◌,
  ◌++◌, map, arith, length, length-append, leb, ap, ◌==◌, Bool-cases,
}
use multi_platform_crypto_tr.Base.Result.{ok}
use multi_platform_crypto_tr.Analytics.Float.{Float}
use multi_platform_crypto_tr.Analytics.Indicators.{nones, drop, defined, Candle, sma}
use multi_platform_crypto_tr.Analytics.Indicators.Aligned.{
  IsDefinedFrom, prefix-IsDefinedFrom, length-drop, length-nones, averages-IsAligned,
}
use multi_platform_crypto_tr.Analytics.Bands.{
  windows, at_end, Bands, std_of, bands_loop, bollinger_bands, percent_k, stochastic,
}

nones_end-IsDefinedFrom : (A : Type 0) (n k : ℕ) → n ≤ k → IsDefinedFrom k (nones {A = A} n ++ [])
unfolding nones
nones_end-IsDefinedFrom A zero k h = tt
nones_end-IsDefinedFrom A (suc n) zero h = absurd (omega arith)
nones_end-IsDefinedFrom A (suc n) (suc k) h = (refl, nones_end-IsDefinedFrom A n k (omega arith))

module _ {A : Type 0} where
  length-windows :
      (period : ℕ) (xs : List A) → 0 < period → length (windows period xs) ≡ length xs + 1 - period
  unfolding windows
  length-windows period [] pos = omega arith
  length-windows period (x ∷ xs) pos = elim (Bool-cases (leb period (length (x ∷ xs)))) [
    | inl room ↦ ground (arith, room, length-windows period xs pos)
    | inr short ↦ ground (arith, short)
  ]

  -- Values for all but the first `k` places of a series.
  pub at_end-IsDefinedFrom :
      (n k j m : ℕ) (values : List (Option A))
      → length values ≡ n - k
      → m ≡ k + j
      → IsDefinedFrom j values
      → (length (at_end n values) ≡ n) × IsDefinedFrom m (at_end n values)
  at_end-IsDefinedFrom n k j m [] e f h = (
    omega (arith, length-append (nones {A = A} (n - 0)) [], length-nones A (n - 0)),
    nones_end-IsDefinedFrom A (n - 0) m (omega (arith, e, f)),
  )
  at_end-IsDefinedFrom n k j m (v ∷ values) e f h =
      let gap = n - length (v ∷ values) in
      (
        omega (arith, e, length-append (nones gap) (v ∷ values), length-nones A gap),
        prefix-IsDefinedFrom gap j m (v ∷ values) (omega (arith, e, f)) h,
      )

  drop-IsDefinedFrom :
      (k : ℕ) (s : List (Option A)) → IsDefinedFrom k s → IsDefinedFrom 0 (drop k s)
  unfolding drop
  drop-IsDefinedFrom zero s h = h
  drop-IsDefinedFrom (suc k) [] h = tt
  drop-IsDefinedFrom (suc k) (x ∷ s) h = drop-IsDefinedFrom k s h.1

module _ {A : Type 0} {B : Type 0} (f : A → B) where
  all_some :
      (xs : List A)
      → (length (map (λ x. some (f x)) xs) ≡ length xs) × IsDefinedFrom 0 (map (λ x. some (f x)) xs)
  all_some [] = (refl, tt)
  all_some (x ∷ xs) = ground (arith, all_some xs)

module _ (fl : Float) where
  open fl use {F}

  bands_loop_all :
      (period : ℕ) (num_std : F) (ws : List (F × List F)) (means : List (Option F))
      → length ws ≤ length means
      → IsDefinedFrom 0 means
      → (upper : List (Option F)) × (lower : List (Option F)) × (bands_loop fl period num_std ws
            means
          ≡ ok (upper, lower))
        × (length upper ≡ length ws)
        × (length lower ≡ length ws)
        × IsDefinedFrom 0 upper
        × IsDefinedFrom 0 lower
  unfolding bands_loop
  bands_loop_all period num_std [] means le h = ([], [], refl, refl, refl, tt, tt)
  bands_loop_all period num_std (w ∷ ws) [] le h = absurd (omega (arith, le))
  bands_loop_all period num_std (w ∷ ws) (none ∷ means) le h = ground (arith, h.0)
  bands_loop_all period num_std ((x, xs) ∷ ws) (some mean ∷ means) le h =
      let (upper, lower, made, up, low, up_all, low_all) =
        bands_loop_all period num_std ws means (omega (arith, le)) h.1 in
      let width = fl.mul num_std (std_of fl period mean x xs) in
      (
        some (fl.add mean width) ∷ upper,
        some (fl.sub mean width) ∷ lower,
        rw made refl,
        omega (arith, up),
        omega (arith, low),
        (refl, up_all),
        (refl, low_all),
      )

  -- With a period above 0, the bands are returned, their assertion never fails, the middle band is the
  -- moving average, and each band is as long as its input and defined exactly from index `period - 1`
  -- on.
  pub bollinger_bands-IsAligned :
      (closes : List F) (period : ℕ) (num_std : F)
      → 0 < period
      → (b : Bands fl) × (bollinger_bands fl closes period num_std ≡ ok b)
        × (sma fl closes period ≡ ok b.middle)
        × (length b.upper ≡ length closes)
        × (length b.middle ≡ length closes)
        × (length b.lower ≡ length closes)
        × IsDefinedFrom (period - 1) b.upper
        × IsDefinedFrom (period - 1) b.middle
        × IsDefinedFrom (period - 1) b.lower
  unfolding bollinger_bands
  bollinger_bands-IsAligned closes period num_std pos =
      let (middle, averaged, long, from) = (averages-IsAligned fl closes period pos).0 in
      let ws = windows period closes in
      let many = length-windows period closes pos in
      let (upper, lower, made, up, low, up_all, low_all) =
        bands_loop_all period num_std ws (drop (period - 1) middle)
          (omega (arith, many, length-drop (period - 1) middle, long))
          (drop-IsDefinedFrom (period - 1) middle from) in
      let n = length closes in
      let above =
        at_end-IsDefinedFrom n (period - 1) 0 (period - 1) upper (omega (arith, up, many, pos))
          (omega arith) up_all in
      let below =
        at_end-IsDefinedFrom n (period - 1) 0 (period - 1) lower (omega (arith, low, many, pos))
          (omega arith) low_all in
      (
        record { upper = at_end n upper; middle = middle; lower = at_end n lower },
        rw (averaged, made) refl,
        averaged,
        above.0,
        long,
        below.0,
        above.1,
        from,
        below.1,
      )

  length-defined : (s : List (Option F)) → IsDefinedFrom 0 s → length (defined s) ≡ length s
  unfolding defined
  length-defined [] h = refl
  length-defined (none ∷ s) h = ground (arith, h.0)
  length-defined (some v ∷ s) h = ground (arith, length-defined s h.1)

  defined-nones : (n : ℕ) (s : List (Option F)) → defined (nones n ++ s) ≡ defined s
  unfolding defined nones
  defined-nones zero s = refl
  defined-nones (suc n) s = defined-nones n s

  defined-at_end : (n : ℕ) (s : List (Option F)) → defined (at_end n s) ≡ defined s
  unfolding defined
  defined-at_end n s = defined-nones (n - length s) s

  -- With periods above 0, both lines of the oscillator are returned; each is as long as its input, %K
  -- is defined exactly from index `k_period - 1` on, and %D from `d_period - 1` places later on.
  pub stochastic-IsAligned :
      (candles : List (Candle F)) (k_period d_period : ℕ)
      → 0 < k_period
      → 0 < d_period
      → (k : List (Option F)) × (d : List (Option F)) × (stochastic fl candles k_period d_period
          ≡ ok (k, d))
        × (length k ≡ length candles)
        × (length d ≡ length candles)
        × IsDefinedFrom (k_period - 1) k
        × IsDefinedFrom (k_period - 1 + (d_period - 1)) d
  unfolding stochastic
  stochastic-IsAligned candles k_period d_period k_pos d_pos =
      let n = length candles in
      let ws = windows k_period candles in
      let many = length-windows k_period candles k_pos in
      let ks = map (λ w. some (percent_k fl w)) ws in
      let all = all_some (percent_k fl) ws in
      let raw =
        at_end-IsDefinedFrom n (k_period - 1) 0 (k_period - 1) ks
          (omega (arith, all.0, many, k_pos)) (omega arith) all.1 in
      let (smoothed, averaged, long, from) =
        (averages-IsAligned fl (defined (at_end n ks)) d_period d_pos).0 in
      let count = ap length (defined-at_end n ks) in
      let counted = length-defined ks all.1 in
      let line =
        at_end-IsDefinedFrom n (k_period - 1) (d_period - 1) (k_period - 1 + (d_period - 1))
          smoothed (omega (arith, long, count, counted, all.0, many, k_pos)) refl from in
      let started : (k_period == 0) ≡ false = ground (arith, k_pos) in
      (at_end n ks, at_end n smoothed, rw (started, averaged) refl, raw.0, line.0, raw.1, line.1)
