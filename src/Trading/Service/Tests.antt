-- ===== src/Trading/Service/Tests.antt =====
-- Witnesses for the trading service: an account with USDT and some BTC, one BTC bought at 100.
use multi_platform_crypto_tr.Base.{ℕ, ◌≡◌, ◌≢◌, ◌*◌, String, refl, true, false, none, some, [], ◌∷◌}
use multi_platform_crypto_tr.Base.Dict.{Dict, lookup}
use multi_platform_crypto_tr.Base.Result.{Result, ok, err, map_ok}
use multi_platform_crypto_tr.Decimal.Fixed.{ℤ, pos, fixed}
use multi_platform_crypto_tr.Exceptions.{AppError, risk_limit_exceeded}
use multi_platform_crypto_tr.Exchange.Models.{Ticker, Balance, OrderRequest}
use multi_platform_crypto_tr.Exchange.Symbol.{split_once, split_symbol}
use multi_platform_crypto_tr.Exchange.Paper.{fetch_balance, is_final}
use multi_platform_crypto_tr.Exchange.Paper.Funds.{PaperAdapter}
use multi_platform_crypto_tr.Trading.{OrderStatus, buy, market, gtc, filled, opened}
use multi_platform_crypto_tr.Trading.Risk.{RiskLimits, check_order}
use multi_platform_crypto_tr.Trading.Service.Store.{OrderRecord, Desk, load, seeded, is_owner}
use multi_platform_crypto_tr.Trading.Service.{
  Draws, checked, check_and_create, place_order, equity_in, quote_equity,
}
use multi_platform_crypto_tr.Trading.Service.Refused.{KeepsRows, refused_order_keeps}
use multi_platform_crypto_tr.Trading.Service.Store.Saved.{rows_in, IsTable}
use multi_platform_crypto_tr.Accounts.{ExchangeAccount, build_adapter, decrypt_credentials}
use multi_platform_crypto_tr.Exchange.Factory.{build, public_market_adapter, new_ccxt}
use multi_platform_crypto_tr.Exchange.Registry.{is_supported, get_info}
use multi_platform_crypto_tr.Security.Words.{plain}
use multi_platform_crypto_tr.Trading.Service.Cancel.{cancel_record}
use multi_platform_crypto_tr.Trading.Service.Cancel.Final.{cancel_ends_order}

abbrev adapter : PaperAdapter fixed
adapter = record { quote = "USDT"; fee_rate = pos 10 }

abbrev limits : RiskLimits fixed
limits = record {
  max_leverage = pos 200000;
  max_position_margin_pct = pos 5000;
  min_risk_reward = pos 10000;
}

abbrev whole : ℕ → ℤ
whole n = pos (n * 10000)

abbrev ticker : Ticker ℤ
ticker = record {
  symbol = "BTC/USDT";
  last = pos 1000000;
  bid = none;
  ask = none;
  timestamp = none;
}

abbrev draws : Draws fixed
draws = record { quoted = ok ticker; fetched = ok ticker; order_id = "paper-1"; record_id = "r1" }

abbrev request : ℕ → OrderRequest ℤ
request leverage = record {
  symbol = "BTC/USDT";
  side = buy;
  type = market;
  amount = pos 10000;
  price = none;
  stop_price = none;
  time_in_force = gtc;
  reduce_only = false;
  post_only = false;
  leverage = some leverage;
  client_order_id = none;
}

abbrev stored_rows : Dict (Balance ℤ)
stored_rows =
    ("USDT", record { asset = "USDT"; free = pos 900000000; used = pos 100000000 })
    ∷ ("BTC", record { asset = "BTC"; free = pos 5000; used = pos 0 })
    ∷ []

abbrev desk : Desk ℤ
desk = record { owners = ("acc", "u1") ∷ []; balances = ("acc", stored_rows) ∷ []; records = [] }

-- the paper account that the desk has, and what building its adapter gives
abbrev account : ExchangeAccount
account = record {
  user_id = "u1";
  exchange_id = "kraken";
  label = "main";
  market_type = "spot";
  is_paper = true;
  api_key_enc = none;
  api_secret_enc = none;
  passphrase_enc = none;
  is_active = true;
}

abbrev built : Result AppError (Unit {0})
built =
    map_ok (λ m. tt)
      (build_adapter {L = ℕ} plain (record { encrypt = λ s. s; decrypt = λ s. ok s })
        (record { allow_live_trading = false; use_exchange_testnet = true }) account none)

building : built ≡ ok tt
unfolding build_adapter decrypt_credentials build public_market_adapter new_ccxt is_supported
    get_info lookup
building = refl

abbrev outcome : ℕ → Result AppError (OrderRecord ℤ) × Desk ℤ
outcome leverage =
    place_order fixed adapter limits whole (pos 1000000000) built draws "u1" "acc"
      (request leverage) desk

abbrev row : OrderRecord ℤ
row = record {
  user_id = "u1";
  account_id = "acc";
  exchange_order_id = some "paper-1";
  client_order_id = none;
  symbol = "BTC/USDT";
  side = buy;
  type = market;
  status = filled;
  amount = pos 10000;
  filled = pos 10000;
  price = none;
  average = some (pos 1000000);
  fee = pos 1000;
  is_paper = true;
}

stored_balances : IsTable fixed (rows_in fixed desk "acc")
unfolding lookup
stored_balances = ((refl, (refl, tt)), (refl, (refl, tt)))

refusing : (outcome 99).0 ≡ err risk_limit_exceeded
unfolding build_adapter decrypt_credentials build public_market_adapter new_ccxt is_supported
    get_info place_order check_and_create checked quote_equity equity_in check_order fetch_balance
    split_symbol split_once load seeded is_owner lookup
refusing = refl

refused_order_keeps_example :
    ((outcome 99).1.records ≡ desk.records)
    × ((outcome 99).1.owners ≡ desk.owners)
    × ((other : String)
        → other ≢ "acc"
        → lookup other (outcome 99).1.balances ≡ lookup other desk.balances)
    × KeepsRows fixed
        (pos 1000000000)
        (rows_in fixed desk "acc")
        (rows_in fixed (outcome 99).1 "acc")
refused_order_keeps_example =
    refused_order_keeps fixed adapter limits whole (pos 1000000000) built draws "u1" "acc"
      (request 99) desk risk_limit_exceeded stored_balances refusing

abbrev open_row : OrderRecord ℤ
open_row = record row { status = opened }

abbrev open_desk : Desk ℤ
open_desk = record desk { records = ("r1", open_row) ∷ [] }

cancel_ends_order_example :
    (status : OrderStatus) × (is_final fixed status ≡ true)
    × ((cancel_record fixed adapter (pos 1000000000) built "u1" "r1" open_desk).0
        ≡ ok (record open_row { status = status }))
    × (lookup "r1"
          (cancel_record fixed adapter (pos 1000000000) built "u1" "r1" open_desk).1.records
        ≡ some (record open_row { status = status }))
    × ((other : String)
        → other ≢ "r1"
        → lookup other
            (cancel_record fixed adapter (pos 1000000000) built "u1" "r1" open_desk).1.records
          ≡ lookup other open_desk.records)
unfolding lookup
cancel_ends_order_example =
    cancel_ends_order fixed adapter (pos 1000000000) built "u1" "r1" open_desk open_row building
      refl refl refl
