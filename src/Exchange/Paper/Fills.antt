-- ===== src/Exchange/Paper/Fills.antt =====
-- What a filled paper order does to the balances.
use multi_platform_crypto_tr.Base.{String, ◌≡◌, ◌≢◌, refl, true, false, some, arith}
use multi_platform_crypto_tr.Base.Dict.{Dict, lookup, lookup-insert_self}
use multi_platform_crypto_tr.Base.Result.{ok, err}
use multi_platform_crypto_tr.Decimal.{Decimal}
use multi_platform_crypto_tr.Exceptions.{insufficient_balance}
use multi_platform_crypto_tr.Exchange.Models.{Ticker, Balance, OrderRequest, PaperLedger}
use multi_platform_crypto_tr.Exchange.Symbol.{split_symbol}
use multi_platform_crypto_tr.Exchange.Paper.Funds.{PaperAdapter, balance_of, debit}
use multi_platform_crypto_tr.Exchange.Paper.Fill.{resolve_fill_price}
use multi_platform_crypto_tr.Exchange.Paper.{filled_order, settle, place_at, create_order}
use multi_platform_crypto_tr.Exchange.Paper.Effects.{legs, Moved, debit-credit}
use multi_platform_crypto_tr.Trading.{OrderSide, buy, sell}

module _ (dec : Decimal) where
  open dec use {D, d0, add, sub, mul, le}

  settle_moves :
      (side : OrderSide) (pair : String × String) (amount cost fee : D)
      (balances : Dict (Balance D))
      → let (spent, received) = legs dec side pair amount cost fee in
        spent.0 ≢ received.0
        → le spent.1 (balance_of dec spent.0 balances).free ≡ true
        → (after : Dict (Balance D)) × (settle dec side pair amount cost fee balances ≡ ok after)
          × Moved dec balances after spent received
  unfolding settle
  settle_moves buy (base, quote) amount cost fee balances ne covered =
      debit-credit dec (quote, add cost fee) (base, amount) balances ne covered
  settle_moves sell (base, quote) amount cost fee balances ne covered =
      debit-credit dec (base, amount) (quote, sub cost fee) balances ne covered

  settle_short :
      (side : OrderSide) (pair : String × String) (amount cost fee : D)
      (balances : Dict (Balance D))
      → let (spent, received) = legs dec side pair amount cost fee in
        le spent.1 (balance_of dec spent.0 balances).free ≡ false
        → settle dec side pair amount cost fee balances ≡ err insufficient_balance
  unfolding settle debit
  settle_short buy (base, quote) amount cost fee balances short = ground arith
  settle_short sell (base, quote) amount cost fee balances short = ground arith

  module _ (a : PaperAdapter dec) (ticker : Ticker D) (id : String) (request : OrderRequest D)
      (ledger : PaperLedger D) (p : D) where
    abbrev cost : D
    cost = mul request.amount p

    abbrev pub fill_legs : (String × D) × (String × D)
    fill_legs =
        legs dec request.side (split_symbol request.symbol a.quote) request.amount cost
          (mul cost a.fee_rate)

    -- An order that fills at `p` between two different assets, and whose cost is covered by free
    -- funds, is recorded as filled; a buy pays amount × p plus the fee in the quote asset and
    -- receives the amount in the base asset, a sell pays the amount and receives amount × p less the
    -- fee. Reserved funds and all other assets stay as they were.
    pub fill_moves_funds :
        resolve_fill_price dec request ticker ≡ some p
        → fill_legs.0.0 ≢ fill_legs.1.0
        → le fill_legs.0.1 (balance_of dec fill_legs.0.0 ledger.balances).free ≡ true
        → let (r, after) = create_order dec a (ok ticker) id request ledger in
          let order = filled_order dec id request ticker p (mul cost a.fee_rate) in
          (r ≡ ok order)
          × (lookup id after.orders ≡ some order)
          × Moved dec ledger.balances after.balances fill_legs.0 fill_legs.1
    unfolding create_order place_at
    fill_moves_funds e ne covered =
        let moved =
          settle_moves request.side (split_symbol request.symbol a.quote) request.amount cost
            (mul cost a.fee_rate) ledger.balances ne covered in
        rw (e, moved.1) (refl, lookup-insert_self id _ ledger.orders, moved.2)

    -- An order that would fill, but whose cost exceeds the free funds, is refused and changes
    -- nothing.
    pub fill_short :
        resolve_fill_price dec request ticker ≡ some p
        → le fill_legs.0.1 (balance_of dec fill_legs.0.0 ledger.balances).free ≡ false
        → create_order dec a (ok ticker) id request ledger ≡ (err insufficient_balance, ledger)
    unfolding create_order place_at
    fill_short e short = rw (
      e,
      settle_short request.side (split_symbol request.symbol a.quote) request.amount cost
          (mul cost a.fee_rate) ledger.balances short,
    )
