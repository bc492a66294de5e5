-- ===== src/Exchange/Paper/Tests.antt =====
-- Witnesses and runs for the paper adapter, on an account of 1000 USDT with a fee of 4 in 10000.
use mathlib.Core.Bool.{false≢true}
use multi_platform_crypto_tr.Base.{String, ◌≡◌, refl, false, none, some, eq_iff}
use multi_platform_crypto_tr.Base.Dict.{lookup}
use multi_platform_crypto_tr.Base.Result.{ok, err}
use multi_platform_crypto_tr.Decimal.Fixed.{ℤ, pos, fixed, fixed-IsRounding}
use multi_platform_crypto_tr.Exceptions.{insufficient_balance}
use multi_platform_crypto_tr.Exchange.Models.{OrderRequest, Order}
use multi_platform_crypto_tr.Exchange.Symbol.{split_symbol}
use multi_platform_crypto_tr.Exchange.Paper.Funds.{balance_of, debit, reservation}
use multi_platform_crypto_tr.Exchange.Paper.Fill.{resolve_fill_price}
use multi_platform_crypto_tr.Exchange.Paper.{
  resting_order, filled_order, create_order, cancel_order, settle,
}
use multi_platform_crypto_tr.Exchange.Paper.Ledger.{
  IsValid, create_order-IsValid, cancel_order-IsValid,
}
use multi_platform_crypto_tr.Exchange.Paper.Effects.{Moved}
use multi_platform_crypto_tr.Exchange.Paper.Fills.{fill_moves_funds}
use multi_platform_crypto_tr.Exchange.Paper.Resting.{SameFunds, cancel_undoes_rest}
use multi_platform_crypto_tr.Trading.{buy, market, limit, stop, canceled, gtc}
use multi_platform_crypto_tr.Exchange.Paper.Samples.{adapter, ledger, ticker, valid, fair}

abbrev buy_two : OrderRequest ℤ
buy_two = record {
  symbol = "BTC/USDT";
  side = buy;
  type = market;
  amount = pos 20000;
  price = none;
  stop_price = none;
  time_in_force = gtc;
  reduce_only = false;
  post_only = false;
  leverage = none;
  client_order_id = none;
}

abbrev bid_low : OrderRequest ℤ
bid_low = record buy_two { type = limit; price = some (pos 900000) }

abbrev buy_many : OrderRequest ℤ
buy_many = record buy_two { amount = pos 200000 }

create_order-IsValid_example :
    IsValid fixed (create_order fixed adapter (ok ticker) "p1" bid_low ledger).1
create_order-IsValid_example =
    create_order-IsValid fixed fixed-IsRounding adapter (ok ticker) "p1" bid_low ledger fair
      (refl, refl) refl valid

cancel_order-IsValid_example :
    IsValid fixed
      (cancel_order fixed adapter "p1"
        (create_order fixed adapter (ok ticker) "p1" bid_low ledger).1).1
cancel_order-IsValid_example =
    cancel_order-IsValid fixed fixed-IsRounding adapter "p1"
      (create_order fixed adapter (ok ticker) "p1" bid_low ledger).1 fair
      create_order-IsValid_example

abbrev bid_high : OrderRequest ℤ
bid_high = record bid_low { price = some (pos 1100000) }

too_much :
    (create_order fixed adapter (ok ticker) "p1" buy_many ledger).0 ≡ err insufficient_balance
unfolding create_order resolve_fill_price settle debit balance_of lookup split_symbol
too_much = refl

abbrev bought : Order ℤ
bought = filled_order fixed "p1" buy_two ticker (pos 1000000) (pos 800)

fill_moves_funds_example :
    let (r, after) = create_order fixed adapter (ok ticker) "p1" buy_two ledger in
    (r ≡ ok bought)
    × (lookup "p1" after.orders ≡ some bought)
    × Moved fixed ledger.balances after.balances ("USDT", pos 2000800) ("BTC", pos 20000)
unfolding resolve_fill_price balance_of lookup split_symbol
fill_moves_funds_example =
    fill_moves_funds fixed adapter ticker "p1" buy_two ledger (pos 1000000) refl
      (λ e. false≢true ((eq_iff "USDT" "BTC").1 e)) refl

abbrev resting : Order ℤ
resting = resting_order fixed "p1" bid_low ticker

cancel_undoes_rest_example :
    let (placed, rested) = create_order fixed adapter (ok ticker) "p1" bid_low ledger in
    let (out, after) = cancel_order fixed adapter "p1" rested in
    (placed ≡ ok resting)
    × (out ≡ ok (record resting { status = canceled }))
    × ((k : String)
        → SameFunds fixed (balance_of fixed k after.balances) (balance_of fixed k ledger.balances))
unfolding resolve_fill_price balance_of lookup reservation resting_order split_symbol
cancel_undoes_rest_example =
    cancel_undoes_rest fixed fixed-IsRounding adapter ticker "p1" bid_low ledger refl refl refl
      (refl, refl)

abbrev stop_buy : OrderRequest ℤ
stop_buy = record buy_many { type = stop; stop_price = some (pos 2000000) }
