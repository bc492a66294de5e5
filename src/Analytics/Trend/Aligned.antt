-- ===== src/Analytics/Trend/Aligned.antt =====
-- Where the indicators of trend are defined, and how the trend line moves.
use multi_platform_crypto_tr.Base.{
  ℕ, zero, suc, ◌-◌, ◌<◌, ◌≡◌, refl, false, Option, none, some, List, [], ◌∷◌, arith, length,
}
use multi_platform_crypto_tr.Base.Result.{ok}
use multi_platform_crypto_tr.Analytics.Float.{Float}
use multi_platform_crypto_tr.Analytics.Indicators.{Candle, ranges_after, true_range, atr}
use multi_platform_crypto_tr.Analytics.Indicators.Aligned.{
  IsDefinedFrom, IsAligned, averages-IsAligned,
}
use multi_platform_crypto_tr.Analytics.Trend.{
  Direction, uptrend, downtrend, trend_step, trend_loop, supertrend,
}

module _ (fl : Float) where
  open fl use {F}

  length-ranges_after :
      (prev : F) (candles : List (Candle F))
      → length (ranges_after fl prev candles) ≡ length candles
  unfolding ranges_after
  length-ranges_after prev [] = refl
  length-ranges_after prev (c ∷ rest) = omega (arith, length-ranges_after c.close rest)

  pub length-true_range :
      (candles : List (Candle F)) → length (true_range fl candles) ≡ length candles
  unfolding true_range
  length-true_range [] = refl
  length-true_range (c ∷ rest) = omega (arith, length-ranges_after c.close rest)

  pub atr-IsAligned :
      (candles : List (Candle F)) (period : ℕ)
      → 0 < period
      → IsAligned (atr fl candles period) (length candles) (period - 1)
  unfolding atr
  atr-IsAligned candles period pos =
      let (out, made, long, from) = (averages-IsAligned fl (true_range fl candles) period pos).2 in
      (out, made, omega (arith, long, length-true_range candles), from)

  trend_loop_all :
      (multiplier : F) (prev : Option F) (dir : Direction) (candles : List (Candle F))
      (s : List (Option F)) (k : ℕ)
      → length s ≡ length candles
      → IsDefinedFrom k s
      → let (line, direction) = trend_loop fl multiplier prev dir candles s in
        (length line ≡ length candles)
        × (length direction ≡ length candles)
        × IsDefinedFrom k line
        × IsDefinedFrom k direction
  unfolding trend_loop
  trend_loop_all multiplier prev dir [] [] k e h = (refl, refl, tt, tt)
  trend_loop_all multiplier prev dir [] (x ∷ s) k e h = absurd (omega (arith, e))
  trend_loop_all multiplier prev dir (c ∷ candles) [] k e h = absurd (omega (arith, e))
  trend_loop_all multiplier prev dir (c ∷ candles) (none ∷ s) zero e h = ground (arith, h.0)
  trend_loop_all multiplier prev dir (c ∷ candles) (none ∷ s) (suc k) e h =
      let (l, d, line, direction) =
        trend_loop_all multiplier prev dir candles s k (omega (arith, e)) h.1 in
      (omega (arith, l), omega (arith, d), (refl, line), (refl, direction))
  trend_loop_all multiplier prev dir (c ∷ candles) (some a ∷ s) (suc k) e h = ground (arith, h.0)
  trend_loop_all multiplier prev dir (c ∷ candles) (some a ∷ s) zero e h =
      let hl2 = fl.div (fl.add c.high c.low) (fl.of_ℕ 2) in
      let next =
        trend_step fl (fl.add hl2 (fl.mul multiplier a)) (fl.sub hl2 (fl.mul multiplier a)) c.close
          prev dir in
      let (l, d, line, direction) =
        trend_loop_all multiplier (some next.0) next.1 candles s zero (omega (arith, e)) h.1 in
      (omega (arith, l), omega (arith, d), (refl, line), (refl, direction))

  -- One step of the line: it starts as an uptrend, does not fall while the trend goes up, and does not
  -- rise while it goes down.
  abbrev KeepsSide : Option F → Direction → F → Direction → Type 0
  KeepsSide none before now after = after ≡ uptrend
  KeepsSide (some prev) uptrend now uptrend = fl.lt now prev ≡ false
  KeepsSide (some prev) downtrend now downtrend = fl.lt prev now ≡ false
  KeepsSide (some prev) _ now _ = Unit

  abbrev pub Ratchets : Option F → Direction → List (Option F) → List (Option Direction) → Type 0
  Ratchets prev dir [] [] = Unit
  Ratchets prev dir (none ∷ line) (none ∷ direction) = Ratchets prev dir line direction
  Ratchets prev dir (some now ∷ line) (some after ∷ direction) =
      KeepsSide prev dir now after × Ratchets (some now) after line direction
  Ratchets prev dir _ _ = ⊥

  keeps :
      (upper lower close : F) (prev : Option F) (dir : Direction)
      → ((x : F) → fl.lt x x ≡ false)
      → let (now, after) = trend_step fl upper lower close prev dir in KeepsSide prev dir now after
  keeps upper lower close none dir irrefl = refl
  keeps upper lower close (some prev) uptrend irrefl = ground (arith, irrefl prev)
  keeps upper lower close (some prev) downtrend irrefl = ground (arith, irrefl prev)

  trend_loop-Ratchets :
      (multiplier : F) (prev : Option F) (dir : Direction) (candles : List (Candle F))
      (s : List (Option F))
      → ((x : F) → fl.lt x x ≡ false)
      → let (line, direction) = trend_loop fl multiplier prev dir candles s in
        Ratchets prev dir line direction
  unfolding trend_loop
  trend_loop-Ratchets multiplier prev dir [] s irrefl = tt
  trend_loop-Ratchets multiplier prev dir (c ∷ candles) [] irrefl = tt
  trend_loop-Ratchets multiplier prev dir (c ∷ candles) (none ∷ s) irrefl =
      trend_loop-Ratchets multiplier prev dir candles s irrefl
  trend_loop-Ratchets multiplier prev dir (c ∷ candles) (some a ∷ s) irrefl =
      let hl2 = fl.div (fl.add c.high c.low) (fl.of_ℕ 2) in
      let upper = fl.add hl2 (fl.mul multiplier a) in
      let lower = fl.sub hl2 (fl.mul multiplier a) in
      let next = trend_step fl upper lower c.close prev dir in
      (
        keeps upper lower c.close prev dir irrefl,
        trend_loop-Ratchets multiplier (some next.0) next.1 candles s irrefl,
      )

  -- the two series are those of the loop over the average ranges
  pub supertrend_loop :
      (candles : List (Candle F)) (period : ℕ) (multiplier : F)
      → 0 < period
      → (ranges : List (Option F)) × let (line, direction) =
            trend_loop fl multiplier none uptrend candles ranges in
          (supertrend fl candles period multiplier ≡ ok (line, direction))
          × (length line ≡ length candles)
          × (length direction ≡ length candles)
          × IsDefinedFrom (period - 1) line
          × IsDefinedFrom (period - 1) direction
  unfolding supertrend
  supertrend_loop candles period multiplier pos =
      let (ranges, made, long, from) = atr-IsAligned candles period pos in
      let (l, d, line_from, direction_from) =
        trend_loop_all multiplier none uptrend candles ranges (period - 1) long from in
      (ranges, (rw made refl, l, d, line_from, direction_from))

  -- With a period above 0, the trend line and its direction are returned; both are as long as the
  -- input and defined exactly from index `period - 1` on. The trend starts upwards; the line does not
  -- fall while the trend goes up and does not rise while it goes down, if no float is below itself.
  pub supertrend-Ratchets :
      (candles : List (Candle F)) (period : ℕ) (multiplier : F)
      → 0 < period
      → ((x : F) → fl.lt x x ≡ false)
      → (line : List (Option F)) × (direction : List (Option Direction)) × (supertrend fl candles
            period multiplier
          ≡ ok (line, direction))
        × (length line ≡ length candles)
        × (length direction ≡ length candles)
        × IsDefinedFrom (period - 1) line
        × IsDefinedFrom (period - 1) direction
        × Ratchets none uptrend line direction
  supertrend-Ratchets candles period multiplier pos irrefl =
      let (ranges, (made, l, d, line_from, direction_from)) =
        supertrend_loop candles period multiplier pos in
      let (line, direction) = trend_loop fl multiplier none uptrend candles ranges in
      (
        line,
        direction,
        made,
        l,
        d,
        line_from,
        direction_from,
        trend_loop-Ratchets multiplier none uptrend candles ranges irrefl,
      )
