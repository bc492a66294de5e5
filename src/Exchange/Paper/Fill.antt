-- ===== src/Exchange/Paper/Fill.antt =====
-- The fill model of `PaperAdapter`, app/exchange/paper.py.
use multi_platform_crypto_tr.Base.{Bool, Option, none, some, if◌then◌else◌}
use multi_platform_crypto_tr.Decimal.{Decimal, dmin, dmax}
use multi_platform_crypto_tr.Exchange.Models.{Ticker, OrderRequest}
use multi_platform_crypto_tr.Trading.{
  OrderSide, buy, sell, OrderType, market, limit, stop, stop_limit, take_profit, trailing_stop,
}

module _ (dec : Decimal) where
  open dec use {D, le}

  limit_fill : OrderSide → D → D → Option D
  limit_fill buy price last = if le last price then some (dmin dec price last) else none
  limit_fill sell price last = if le price last then some (dmax dec price last) else none

  typed_fill : OrderType → OrderSide → Option D → Bool → D → Option D
  typed_fill market side price post_only last = some last
  typed_fill limit side (some price) post_only last =
      if post_only then none else limit_fill side price last
  typed_fill limit side none post_only last = none
  typed_fill stop side price post_only last = none
  typed_fill stop_limit side price post_only last = none
  typed_fill take_profit side price post_only last = none
  typed_fill trailing_stop side price post_only last = none

  -- `_resolve_fill_price`: `none` if the order rests
  unfoldable pub resolve_fill_price : OrderRequest D → Ticker D → Option D
  unfolding typed_fill limit_fill
  resolve_fill_price request ticker =
      typed_fill request.type request.side request.price request.post_only ticker.last
