-- ===== src/Market/Tests.antt =====
-- Witness for the market service: the moving average of the closes of three candles.
use multi_platform_crypto_tr.Base.{
  ℕ, ◌≡◌, refl, false, true, Option, none, List, map, arith, length,
}
use multi_platform_crypto_tr.Base.Dict.{lookup}
use multi_platform_crypto_tr.Base.Result.{Result, ok}
use multi_platform_crypto_tr.Exceptions.{AppError}
use multi_platform_crypto_tr.Analytics.Indicators.{Candle, sma}
use multi_platform_crypto_tr.Analytics.Indicators.Aligned.{IsDefinedFrom}
use multi_platform_crypto_tr.Analytics.Samples.{whole, candles}
use multi_platform_crypto_tr.Exchange.Factory.{CcxtAdapter, new_ccxt, public_market_adapter}
use multi_platform_crypto_tr.Exchange.Registry.{get_info, is_supported}
use multi_platform_crypto_tr.Market.{is_in, indicator}
use multi_platform_crypto_tr.Market.Series.{for_sma, indicator-Served}
use multi_platform_crypto_tr.Security.Words.{plain}

abbrev fetch_ohlcv : CcxtAdapter → Result AppError (List (Candle ℕ))
fetch_ohlcv market = ok candles

abbrev market : CcxtAdapter
market = record {
  exchange_id = "kraken";
  default_market_type = "spot";
  credentials = none;
  info = record {
    id = "kraken";
    name = "Kraken";
    requires_passphrase = false;
    supports_futures = true;
    supports_margin = true;
    has_testnet = false;
  };
}

indicator-Served_example :
    (indicator whole plain fetch_ohlcv "kraken" "sma" "1h" 2
      ≡ sma whole (map (λ c. c.close) candles) 2)
    × (out : List (Option ℕ)) × (sma whole (map (λ c. c.close) candles) 2 ≡ ok out)
    × (length out ≡ 3)
    × IsDefinedFrom 1 out
unfolding is_in public_market_adapter new_ccxt get_info is_supported lookup
indicator-Served_example =
    indicator-Served whole plain fetch_ohlcv "kraken" "sma" "1h" 2 market candles refl refl for_sma
      refl refl refl (omega arith)
