-- ===== src/Portfolio/Tests.antt =====
-- Witness for the portfolio: one account answers, the other one's exchange is down.
use multi_platform_crypto_tr.Base.{
  ◌≡◌, String, true, none, some, List, [], ◌∷◌, if◌then◌else◌, str_eq,
}
use multi_platform_crypto_tr.Base.Dict.{Dict, lookup}
use multi_platform_crypto_tr.Base.Result.{Result, ok, err}
use multi_platform_crypto_tr.Decimal.Fixed.{ℤ, pos, fixed}
use multi_platform_crypto_tr.Exceptions.{AppError, exchange_unavailable}
use multi_platform_crypto_tr.Accounts.{ExchangeAccount, list_accounts}
use multi_platform_crypto_tr.Exchange.Models.{Balance}
use multi_platform_crypto_tr.Portfolio.{aggregate_balances}
use multi_platform_crypto_tr.Portfolio.Totals.{answered, of_asset, aggregate_balances_exact}

abbrev account : String → ExchangeAccount
account exchange_id = record {
  user_id = "ann";
  exchange_id = exchange_id;
  label = "main";
  market_type = "spot";
  is_paper = true;
  api_key_enc = none;
  api_secret_enc = none;
  passphrase_enc = none;
  is_active = true;
}

abbrev rows : Dict ExchangeAccount
rows = ("a1", account "kraken") ∷ ("a2", account "bybit") ∷ []

abbrev usdt : ℤ → ℤ → Balance ℤ
usdt free used = record { asset = "USDT"; free = free; used = used }

abbrev ask : ExchangeAccount → Result AppError (List (Balance ℤ))
ask a =
    if str_eq a.exchange_id "kraken"
    then err exchange_unavailable
    else ok (usdt (pos 10) (pos 1) ∷ usdt (pos 5) (pos 2) ∷ [])

aggregate_balances_exact_example :
    lookup "USDT" (aggregate_balances fixed ask "ann" rows) ≡ some (usdt (pos 15) (pos 3))
unfolding list_accounts answered of_asset
aggregate_balances_exact_example = aggregate_balances_exact fixed ask "ann" rows "USDT"
