-- ===== src/Market.antt =====
-- `MarketService` of app/services/market_service.py. What the exchange answers for candles is an
-- argument, as are the constants of the calls: 12, 26 and 9 for MACD, 2.0 for the bands, 3 for %D and
-- 3.0 for the trend line.
pub mod Series
mod Tests
use multi_platform_crypto_tr.Base.{
  ℕ, String, Bool, true, false, ◌||◌, Option, none, some, List, [], ◌∷◌, map, str_eq, if◌then◌else◌,
}
use multi_platform_crypto_tr.Base.Result.{Result, ok, err, and_then, map_ok}
use multi_platform_crypto_tr.Exceptions.{AppError, validation_error}
use multi_platform_crypto_tr.Analytics.Float.{Float}
use multi_platform_crypto_tr.Analytics.Indicators.{Candle, sma, ema, rsi, macd, Macd, atr, vwap}
use multi_platform_crypto_tr.Analytics.Bands.{Bands, bollinger_bands, stochastic}
use multi_platform_crypto_tr.Analytics.Trend.{adx, supertrend}
use multi_platform_crypto_tr.Exchange.Factory.{CcxtAdapter, public_market_adapter}
use multi_platform_crypto_tr.Security.Words.{Words}

abbrev pub supported_timeframes : List String
supported_timeframes =
    "1m" ∷ "3m" ∷ "5m" ∷ "15m" ∷ "30m" ∷ "1h" ∷ "2h" ∷ "4h" ∷ "6h" ∷ "12h" ∷ "1d" ∷ "1w" ∷ "1M" ∷ []

-- The indicators that the service knows, each by the text that names it.
pub data Indicator : Type 0 where
  rsi_of sma_of ema_of atr_of vwap_of : Indicator
  adx_of macd_of bollinger_of stochastic_of supertrend_of : Indicator

-- the chain of tests of `compute_indicator`
unfoldable pub indicator_named : String → Option Indicator
indicator_named name =
    if str_eq name "rsi"
    then some rsi_of
    else if str_eq name "sma"
    then some sma_of
    else if str_eq name "ema"
    then some ema_of
    else if str_eq name "atr"
    then some atr_of
    else if str_eq name "vwap"
    then some vwap_of
    else if str_eq name "adx"
    then some adx_of
    else if str_eq name "macd"
    then some macd_of
    else if str_eq name "bollinger"
    then some bollinger_of
    else if str_eq name "stochastic"
    then some stochastic_of
    else if str_eq name "supertrend"
    then some supertrend_of
    else none

abbrev pub supported_indicators : List String
supported_indicators =
    "rsi" ∷ "sma" ∷ "ema" ∷ "atr" ∷ "vwap" ∷ "adx" ∷ "macd" ∷ "bollinger" ∷ "stochastic"
    ∷ "supertrend" ∷ []

-- `x in xs`
unfoldable pub is_in : String → List String → Bool
is_in x [] = false
is_in x (y ∷ ys) = str_eq x y || is_in x ys

module _ (fl : Float) where
  open fl use {F, of_ℕ}

  abbrev pub series_of : Indicator → List (Candle F) → ℕ → Result AppError (List (Option F))
  series_of rsi_of candles period = rsi fl (map (λ c. c.close) candles) period
  series_of sma_of candles period = sma fl (map (λ c. c.close) candles) period
  series_of ema_of candles period = ema fl (map (λ c. c.close) candles) period
  series_of atr_of candles period = atr fl candles period
  series_of vwap_of candles period = ok (vwap fl candles)
  series_of adx_of candles period = adx fl candles period
  series_of macd_of candles period =
      map_ok (λ m. m.line) (macd fl (map (λ c. c.close) candles) 12 26 9)
  series_of bollinger_of candles period =
      map_ok (λ b. b.middle) (bollinger_bands fl (map (λ c. c.close) candles) period (of_ℕ 2))
  series_of stochastic_of candles period = map_ok (λ (k, d). k) (stochastic fl candles period 3)
  series_of supertrend_of candles period =
      map_ok (λ (line, direction). line) (supertrend fl candles period (of_ℕ 3))

  abbrev computed : Option Indicator → List (Candle F) → ℕ → Result AppError (List (Option F))
  computed none candles period = err validation_error
  computed (some i) candles period = series_of i candles period

  unfoldable pub compute_indicator :
      Words → String → List (Candle F) → ℕ → Result AppError (List (Option F))
  compute_indicator w name candles period = computed (indicator_named (w.lower name)) candles period

  -- `candles`: the time frame, then the adapter, then its answer
  unfoldable pub candles_of :
      Words
      → (CcxtAdapter → Result AppError (List (Candle F)))
      → String
      → String
      → Result AppError (List (Candle F))
  candles_of w fetch_ohlcv exchange_id timeframe =
      if is_in timeframe supported_timeframes
      then and_then (public_market_adapter w exchange_id) fetch_ohlcv
      else err validation_error

  unfoldable pub indicator :
      Words
      → (CcxtAdapter → Result AppError (List (Candle F)))
      → String
      → String
      → String
      → ℕ
      → Result AppError (List (Option F))
  indicator w fetch_ohlcv exchange_id name timeframe period =
      if is_in (w.lower name) supported_indicators
      then and_then (candles_of w fetch_ohlcv exchange_id timeframe)
          (λ candles. compute_indicator w (w.lower name) candles period)
      else err validation_error
