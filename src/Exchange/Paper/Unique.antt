-- ===== src/Exchange/Paper/Unique.antt =====
-- The balances of a paper account keep one entry for each asset.
use multi_platform_crypto_tr.Base.{String, Option, none, some, inl, inr, Bool-cases}
use multi_platform_crypto_tr.Base.Dict.{Dict, HasUniqueKeys, insert-HasUniqueKeys}
use multi_platform_crypto_tr.Base.Result.{Result, ok, err, Yields, Yields-map_ok}
use multi_platform_crypto_tr.Decimal.{Decimal}
use multi_platform_crypto_tr.Exceptions.{AppError}
use multi_platform_crypto_tr.Exchange.Models.{Ticker, Balance, OrderRequest, Order, PaperLedger}
use multi_platform_crypto_tr.Exchange.Symbol.{split_symbol}
use multi_platform_crypto_tr.Exchange.Paper.Funds.{
  PaperAdapter, credit, debit, reserve, reservation, balance_of,
}
use multi_platform_crypto_tr.Exchange.Paper.Fill.{resolve_fill_price}
use multi_platform_crypto_tr.Exchange.Paper.{
  resting_order, filled_order, booked, settle, place_at, create_order,
}
use multi_platform_crypto_tr.Trading.{OrderSide, buy, sell}

module _ (dec : Decimal) where
  open dec use {D, add, sub, mul}

  abbrev Unique : Result AppError (Dict (Balance D)) → Type 0
  Unique r = Yields HasUniqueKeys r

  credit-HasUniqueKeys :
      (asset : String) (amount : D) (balances : Dict (Balance D))
      → HasUniqueKeys balances
      → HasUniqueKeys (credit dec asset amount balances)
  unfolding credit
  credit-HasUniqueKeys asset amount balances h = insert-HasUniqueKeys asset (_) balances h

  debit-Unique :
      (asset : String) (amount : D) (balances : Dict (Balance D))
      → HasUniqueKeys balances
      → Unique (debit dec asset amount balances)
  unfolding debit
  debit-Unique asset amount balances h =
      elim (Bool-cases (dec.le amount (balance_of dec asset balances).free)) [
        | inl covered ↦ rw (covered) (insert-HasUniqueKeys asset (_) balances h)
        | inr short ↦ rw short tt
      ]

  reserve-Unique :
      (asset : String) (amount : D) (balances : Dict (Balance D))
      → HasUniqueKeys balances
      → Unique (reserve dec asset amount balances)
  unfolding reserve
  reserve-Unique asset amount balances h =
      elim (Bool-cases (dec.le amount (balance_of dec asset balances).free)) [
        | inl covered ↦ rw (covered) (insert-HasUniqueKeys asset (_) balances h)
        | inr short ↦ rw short tt
      ]

  settle-Unique :
      (side : OrderSide) (pair : String × String) (amount cost fee : D)
      (balances : Dict (Balance D))
      → HasUniqueKeys balances
      → Unique (settle dec side pair amount cost fee balances)
  unfolding settle
  settle-Unique buy (base, quote) amount cost fee balances h =
      Yields-map_ok HasUniqueKeys HasUniqueKeys (credit dec base amount)
        (debit dec quote (add cost fee) balances) (credit-HasUniqueKeys base amount)
        (debit-Unique quote (add cost fee) balances h)
  settle-Unique sell (base, quote) amount cost fee balances h =
      Yields-map_ok HasUniqueKeys HasUniqueKeys (credit dec quote (sub cost fee))
        (debit dec base amount balances) (credit-HasUniqueKeys quote (sub cost fee))
        (debit-Unique base amount balances h)

  booked-HasUniqueKeys :
      (ledger : PaperLedger D) (order : Order D) (r : Result AppError (Dict (Balance D)))
      → HasUniqueKeys ledger.balances
      → Unique r
      → HasUniqueKeys (booked dec ledger order r).1.balances
  booked-HasUniqueKeys ledger order (ok balances) h u = u
  booked-HasUniqueKeys ledger order (err e) h u = h

  place_at-HasUniqueKeys :
      (found : Option D) (a : PaperAdapter dec) (ticker : Ticker D) (id : String)
      (request : OrderRequest D) (ledger : PaperLedger D)
      → HasUniqueKeys ledger.balances
      → HasUniqueKeys (place_at dec found a ticker id request ledger).1.balances
  unfolding place_at
  place_at-HasUniqueKeys none a ticker id request ledger h =
      let order = resting_order dec id request ticker in
      let (asset, reserved) = reservation dec a order in
      booked-HasUniqueKeys ledger order (reserve dec asset reserved ledger.balances) h
        (reserve-Unique asset reserved ledger.balances h)
  place_at-HasUniqueKeys (some p) a ticker id request ledger h =
      let cost = mul request.amount p in
      let fee = mul cost a.fee_rate in
      let pair = split_symbol request.symbol a.quote in
      booked-HasUniqueKeys ledger (filled_order dec id request ticker p fee)
        (settle dec request.side pair request.amount cost fee ledger.balances) h
        (settle-Unique request.side pair request.amount cost fee ledger.balances h)

  pub create_order-HasUniqueKeys :
      (a : PaperAdapter dec) (fetched : Result AppError (Ticker D)) (id : String)
      (request : OrderRequest D) (ledger : PaperLedger D)
      → HasUniqueKeys ledger.balances
      → HasUniqueKeys (create_order dec a fetched id request ledger).1.balances
  unfolding create_order
  create_order-HasUniqueKeys a (err e) id request ledger h = h
  create_order-HasUniqueKeys a (ok ticker) id request ledger h =
      place_at-HasUniqueKeys (resolve_fill_price dec request ticker) a ticker id request ledger h
