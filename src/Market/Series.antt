-- ===== src/Market/Series.antt =====
-- What the market service answers for an indicator.
use multi_platform_crypto_tr.Base.{
  ℕ, ◌-◌, ◌<◌, ◌≡◌, ◌⊎◌, ◌∙◌, refl, ap, sym, inl, inr, String, true, false, not, Option, none, some,
  List, [], ◌∷◌, map, arith, length, is_none,
}
use multi_platform_crypto_tr.Base.Result.{Result, ok, err, map_ok}
use multi_platform_crypto_tr.Exceptions.{AppError, validation_error}
use multi_platform_crypto_tr.Analytics.Float.{Float}
use multi_platform_crypto_tr.Analytics.Indicators.{
  Candle, sma, ema, rsi, macd, atr, vwap, vwap_loop,
}
use multi_platform_crypto_tr.Analytics.Indicators.Aligned.{
  IsDefinedFrom, averages-IsAligned, rsi-IsAligned,
}
use multi_platform_crypto_tr.Analytics.Indicators.Convergence.{macd-IsAligned}
use multi_platform_crypto_tr.Analytics.Bands.{bollinger_bands, stochastic}
use multi_platform_crypto_tr.Analytics.Bands.Aligned.{
  bollinger_bands-IsAligned, stochastic-IsAligned,
}
use multi_platform_crypto_tr.Analytics.Trend.Aligned.{atr-IsAligned, supertrend_loop}
use multi_platform_crypto_tr.Analytics.Trend.Directional.{adx_starts}
use multi_platform_crypto_tr.Analytics.Trend.{uptrend, trend_loop, adx, supertrend}
use multi_platform_crypto_tr.Exchange.Factory.{CcxtAdapter, public_market_adapter}
use multi_platform_crypto_tr.Market.{
  supported_timeframes, Indicator, rsi_of, sma_of, ema_of, atr_of, vwap_of, adx_of, macd_of,
  bollinger_of, stochastic_of, supertrend_of, indicator_named, supported_indicators, is_in,
  series_of, compute_indicator, candles_of, indicator,
}
use multi_platform_crypto_tr.Security.Words.{Words}

-- The index from which the series of an indicator is defined; that of the index of direction and of
-- the weighted price depends on the prices.
abbrev pub start_of : Indicator → ℕ → Option ℕ
start_of rsi_of period = some period
start_of macd_of period = some 25
start_of adx_of period = none
start_of vwap_of period = none
start_of _ period = some (period - 1)

abbrev pub StartsAt : {A : Type 0} → Option ℕ → List (Option A) → Type 0
StartsAt none s = Unit
StartsAt (some k) s = IsDefinedFrom k s

-- the allow-list of `indicator` and the tests of `compute_indicator` agree
named_supported :
    (name : String) → is_in name supported_indicators ≡ not (is_none (indicator_named name))
unfolding is_in indicator_named
named_supported name = ground arith

module _ (fl : Float) where
  open fl use {F}

  length-closes : (candles : List (Candle F)) → length (map (λ c. c.close) candles) ≡ length candles
  length-closes [] = refl
  length-closes (c ∷ candles) = omega (arith, length-closes candles)

  length-vwap_loop :
      (pv vol : F) (candles : List (Candle F))
      → length (vwap_loop fl pv vol candles) ≡ length candles
  unfolding vwap_loop
  length-vwap_loop pv vol [] = refl
  length-vwap_loop pv vol (c ∷ candles) =
      let typical = fl.div (fl.add (fl.add c.high c.low) c.close) (fl.of_ℕ 3) in
      omega (
        arith,
        length-vwap_loop (fl.add pv (fl.mul typical c.volume)) (fl.add vol c.volume) candles,
      )

  -- The series is returned, is as long as the candles, and is defined from its start on.
  abbrev pub Served : Indicator → List (Candle F) → ℕ → Result AppError (List (Option F)) → Type 0
  Served i candles period r =
      (out : List (Option F)) × (r ≡ ok out)
      × (length out ≡ length candles)
      × StartsAt (start_of i period) out

  series-Served :
      (i : Indicator) (candles : List (Candle F)) (period : ℕ)
      → 0 < period
      → Served i candles period (series_of fl i candles period)
  series-Served rsi_of candles period pos =
      rw (sym (length-closes candles)) (rsi-IsAligned fl (map (λ c. c.close) candles) period pos)
  series-Served sma_of candles period pos =
      rw (sym (length-closes candles))
        (averages-IsAligned fl (map (λ c. c.close) candles) period pos).0
  series-Served ema_of candles period pos =
      rw (sym (length-closes candles))
        (averages-IsAligned fl (map (λ c. c.close) candles) period pos).1
  series-Served atr_of candles period pos = atr-IsAligned fl candles period pos
  series-Served vwap_of candles period pos = (
    vwap_loop fl (fl.of_ℕ 0) (fl.of_ℕ 0) candles,
    refl,
    length-vwap_loop (fl.of_ℕ 0) (fl.of_ℕ 0) candles,
    tt,
  )
  series-Served adx_of candles period pos =
      let (out, made, long, undefined) = adx_starts fl candles period pos in (out, made, long, tt)
  series-Served macd_of candles period pos =
      let (m, made, line, signal, hist, line_from, signal_from, hist_from) =
        macd-IsAligned fl (map (λ c. c.close) candles) 12 26 9 (omega arith) (omega arith)
          (omega arith) in
      (m.line, rw made refl, line ∙ length-closes candles, line_from)
  series-Served bollinger_of candles period pos =
      let (b, made, averaged, up, mid, low, up_from, mid_from, low_from) =
        bollinger_bands-IsAligned fl (map (λ c. c.close) candles) period (fl.of_ℕ 2) pos in
      (b.middle, rw made refl, mid ∙ length-closes candles, mid_from)
  series-Served stochastic_of candles period pos =
      let (k, d, made, k_long, d_long, k_from, d_from) =
        stochastic-IsAligned fl candles period 3 pos (omega arith) in
      (k, rw made refl, k_long, k_from)
  series-Served supertrend_of candles period pos =
      let (ranges, (made, line, direction, line_from, direction_from)) =
        supertrend_loop fl candles period (fl.of_ℕ 3) pos in
      ((trend_loop fl (fl.of_ℕ 3) none uptrend candles ranges).0, rw made refl, line, line_from)

  abbrev closes : List (Candle F) → List F
  closes candles = map (λ c. c.close) candles

  -- The series that each text names, and the index from which it is defined. The numbers are those of
  -- the calls in `compute_indicator`.
  pub data Answers (candles : List (Candle F)) (period : ℕ)
      : String → Option ℕ → Result AppError (List (Option F)) → Type 0 where
    for_rsi : Answers candles period "rsi" (some period) (rsi fl (closes candles) period)
    for_sma : Answers candles period "sma" (some (period - 1)) (sma fl (closes candles) period)
    for_ema : Answers candles period "ema" (some (period - 1)) (ema fl (closes candles) period)
    for_atr : Answers candles period "atr" (some (period - 1)) (atr fl candles period)
    for_vwap : Answers candles period "vwap" none (ok (vwap fl candles))
    for_adx : Answers candles period "adx" none (adx fl candles period)
    for_macd :
        Answers candles period "macd"
          (some 25)
          (map_ok (λ m. m.line) (macd fl (closes candles) 12 26 9))
    for_bollinger :
        Answers candles period "bollinger"
          (some (period - 1))
          (map_ok (λ b. b.middle) (bollinger_bands fl (closes candles) period (fl.of_ℕ 2)))
    for_stochastic :
        Answers candles period "stochastic"
          (some (period - 1))
          (map_ok (λ (k, d). k) (stochastic fl candles period 3))
    for_supertrend :
        Answers candles period "supertrend"
          (some (period - 1))
          (map_ok (λ (line, direction). line) (supertrend fl candles period (fl.of_ℕ 3)))

  answers_lem :
      (candles : List (Candle F)) (period : ℕ) {text : String} {start : Option ℕ}
      {r : Result AppError (List (Option F))}
      → Answers candles period text start r
      → (i : Indicator) × (indicator_named text ≡ some i)
        × (series_of fl i candles period ≡ r)
        × (start_of i period ≡ start)
  unfolding indicator_named
  answers_lem candles period for_rsi = (rsi_of, refl, refl, refl)
  answers_lem candles period for_sma = (sma_of, refl, refl, refl)
  answers_lem candles period for_ema = (ema_of, refl, refl, refl)
  answers_lem candles period for_atr = (atr_of, refl, refl, refl)
  answers_lem candles period for_vwap = (vwap_of, refl, refl, refl)
  answers_lem candles period for_adx = (adx_of, refl, refl, refl)
  answers_lem candles period for_macd = (macd_of, refl, refl, refl)
  answers_lem candles period for_bollinger = (bollinger_of, refl, refl, refl)
  answers_lem candles period for_stochastic = (stochastic_of, refl, refl, refl)
  answers_lem candles period for_supertrend = (supertrend_of, refl, refl, refl)

  module _ (w : Words) (fetch_ohlcv : CcxtAdapter → Result AppError (List (Candle F)))
      (exchange_id name timeframe : String) (period : ℕ) where
    -- For a name that is in lower case the text of one of the ten indicators, a time frame that is
    -- listed, an exchange that answers candles and a period above 0, the answer is the series of the
    -- indicator of that name: RSI for "rsi", the simple average of the closes for "sma", and so on for
    -- each of the ten. It has one entry for each candle, and is defined exactly from the start on that
    -- the table gives, for all but "adx" and "vwap". This asks that lower case stays as it is in lower
    -- case.
    pub indicator-Served :
        {text : String} {start : Option ℕ} {r : Result AppError (List (Option F))}
        (market : CcxtAdapter) (candles : List (Candle F))
        → w.lower name ≡ text
        → w.lower text ≡ text
        → Answers candles period text start r
        → is_in timeframe supported_timeframes ≡ true
        → public_market_adapter w exchange_id ≡ ok market
        → fetch_ohlcv market ≡ ok candles
        → 0 < period
        → (indicator fl w fetch_ohlcv exchange_id name timeframe period ≡ r)
          × (out : List (Option F)) × (r ≡ ok out)
          × (length out ≡ length candles)
          × StartsAt start out
    unfolding indicator candles_of compute_indicator
    indicator-Served {text = text} {r = r} market candles lowered lower answers framed built fetched
          pos =
        let (i, named, same, begins) = answers_lem candles period answers in
        let listed : is_in text supported_indicators ≡ true =
          named_supported text ∙ ap (λ o. not (is_none o)) named in
        let (out, made, long, from) = series-Served i candles period pos in
        (
          rw (lowered, listed, framed, built, fetched, lower, named) same,
          out,
          sym same ∙ made,
          long,
          rw (sym begins) from,
        )

    -- A request for an indicator or a time frame that is not listed is refused before the exchange is
    -- asked, so whatever it would answer.
    pub indicator_refused :
        (indicator_named (w.lower name) ≡ none) ⊎ (is_in timeframe supported_timeframes ≡ false)
        → indicator fl w fetch_ohlcv exchange_id name timeframe period ≡ err validation_error
    unfolding indicator candles_of
    indicator_refused (inl unknown) =
        let unlisted : is_in (w.lower name) supported_indicators ≡ false =
          named_supported (w.lower name) ∙ ap (λ o. not (is_none o)) unknown in
        rw unlisted refl
    indicator_refused (inr unframed) = ground (arith, unframed)
