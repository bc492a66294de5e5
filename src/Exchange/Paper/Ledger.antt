-- ===== src/Exchange/Paper/Ledger.antt =====
-- The invariant of a paper ledger under the operations of the adapter.
use multi_platform_crypto_tr.Base.{
  String, ◌≡◌, refl, true, Option, none, some, inl, inr, arith, Option-cases, Bool-cases,
}
use multi_platform_crypto_tr.Base.Dict.{Dict, lookup, insert, lookup-insert}
use multi_platform_crypto_tr.Base.Result.{Result, ok, err, Yields}
use multi_platform_crypto_tr.Decimal.{Decimal, IsRounding}
use multi_platform_crypto_tr.Exceptions.{AppError}
use multi_platform_crypto_tr.Exchange.Models.{Ticker, Balance, OrderRequest, Order, PaperLedger}
use multi_platform_crypto_tr.Exchange.Symbol.{split_symbol}
use multi_platform_crypto_tr.Exchange.Paper.Funds.{
  PaperAdapter, price_or_zero, reserve, reservation,
}
use multi_platform_crypto_tr.Exchange.Paper.Fill.{resolve_fill_price}
use multi_platform_crypto_tr.Exchange.Paper.{
  resting_order, filled_order, booked, settle, place_at, create_order, cancel_known, cancel_order,
  is_final,
}
use multi_platform_crypto_tr.Exchange.Paper.Solvent.{
  IsSolvent, settle-IsSolvent, reserve-IsSolvent, release-IsSolvent,
}
use multi_platform_crypto_tr.Trading.{canceled}

module _ (dec : Decimal) where
  open dec use {D, d0, d1, le}

  -- An order's amount and price are not negative.
  abbrev pub IsPriced : D → Option D → Type 0
  IsPriced amount price = (le d0 amount ≡ true) × (le d0 (price_or_zero dec price) ≡ true)

  pub record IsValid (ledger : PaperLedger D) : Type 0 where
    pub solvent : IsSolvent dec ledger.balances
    pub priced :
        (id : String) (o : Order D) → lookup id ledger.orders ≡ some o → IsPriced o.amount o.price

  -- The fee is a share of the cost.
  pub record IsFair (a : PaperAdapter dec) : Type 0 where
    pub fee_nonneg : le d0 a.fee_rate ≡ true
    pub fee_le_cost : le a.fee_rate d1 ≡ true

module _ (dec : Decimal) (laws : IsRounding dec) where
  open dec use {D, d0, d1, add, mul, le}

  pub reservation_nonneg :
      (a : PaperAdapter dec) (order : Order D)
      → IsFair dec a
      → IsPriced dec order.amount order.price
      → le d0 (reservation dec a order).1 ≡ true
  unfolding reservation
  reservation_nonneg a order fair priced =
      let cost = mul order.amount (price_or_zero dec order.price) in
      let cost_ok =
        laws.mul_nonneg order.amount (price_or_zero dec order.price) priced.0 priced.1 in
      let fee_ok = laws.mul_nonneg cost a.fee_rate cost_ok fair.fee_nonneg in
      let held_ok = laws.add_nonneg cost (mul cost a.fee_rate) cost_ok fee_ok in ground arith

  -- What is filled is filled at a price that is not negative.
  fill_nonneg :
      (request : OrderRequest D) (ticker : Ticker D) (p : D)
      → IsPriced dec request.amount request.price
      → le d0 ticker.last ≡ true
      → resolve_fill_price dec request ticker ≡ some p
      → le d0 p ≡ true
  unfolding resolve_fill_price
  fill_nonneg request ticker p priced last_ok e = ground arith

  insert-IsPriced :
      (order : Order D) (ledger : PaperLedger D)
      → IsValid dec ledger
      → IsPriced dec order.amount order.price
      → (id k : String) (o : Order D) → lookup k (insert id order ledger.orders) ≡ some o
      → IsPriced dec o.amount o.price
  insert-IsPriced order ledger v priced id k o e =
      ground (arith, lookup-insert id k order ledger.orders, v.priced k o)

  booked-IsValid :
      (ledger : PaperLedger D) (order : Order D) (r : Result AppError (Dict (Balance D)))
      → IsValid dec ledger
      → IsPriced dec order.amount order.price
      → Yields (IsSolvent dec) r
      → IsValid dec (booked dec ledger order r).1
  booked-IsValid ledger order (err e) v priced y = v
  booked-IsValid ledger order (ok balances) v priced y = record {
    solvent = y;
    priced = insert-IsPriced order ledger v priced order.id;
  }

  place_at-IsValid :
      (found : Option D) (a : PaperAdapter dec) (ticker : Ticker D) (order_id : String)
      (request : OrderRequest D) (ledger : PaperLedger D)
      → IsFair dec a
      → IsPriced dec request.amount request.price
      → ((p : D) → found ≡ some p → le d0 p ≡ true)
      → IsValid dec ledger
      → IsValid dec (place_at dec found a ticker order_id request ledger).1
  unfolding place_at
  place_at-IsValid none a ticker order_id request ledger fair priced fill v =
      let order = resting_order dec order_id request ticker in
      booked-IsValid ledger order
        (reserve dec (reservation dec a order).0 (reservation dec a order).1 ledger.balances) v
        priced
        (reserve-IsSolvent dec laws (reservation dec a order).0 (reservation dec a order).1
          ledger.balances v.solvent (reservation_nonneg a order fair priced))
  place_at-IsValid (some p) a ticker order_id request ledger fair priced fill v =
      let cost = mul request.amount p in
      let fee = mul cost a.fee_rate in
      let pair = split_symbol request.symbol a.quote in
      let cost_ok = laws.mul_nonneg request.amount p priced.0 (fill p refl) in
      booked-IsValid ledger (filled_order dec order_id request ticker p fee)
        (settle dec request.side pair request.amount cost fee ledger.balances) v priced
        (settle-IsSolvent dec laws request.side pair request.amount cost fee ledger.balances
          v.solvent priced.0 (laws.mul_le_self cost a.fee_rate cost_ok fair.fee_le_cost))

  -- Placing an order whose amount and price are not negative, at a last price that is not negative
  -- and a fee rate between 0 and 1, leaves a ledger in which no free or reserved balance is negative
  -- and every order has an amount and a price that are not negative, also if the order or the market
  -- request fails.
  pub create_order-IsValid :
      (a : PaperAdapter dec) (fetched : Result AppError (Ticker D)) (order_id : String)
      (request : OrderRequest D) (ledger : PaperLedger D)
      → IsFair dec a
      → IsPriced dec request.amount request.price
      → Yields (λ (t : Ticker D). le d0 t.last ≡ true) fetched
      → IsValid dec ledger
      → IsValid dec (create_order dec a fetched order_id request ledger).1
  unfolding create_order
  create_order-IsValid a (err e) order_id request ledger fair priced last_ok v = v
  create_order-IsValid a (ok ticker) order_id request ledger fair priced last_ok v =
      place_at-IsValid (resolve_fill_price dec request ticker) a ticker order_id request ledger fair
        priced (λ p e. fill_nonneg request ticker p priced last_ok e) v

  cancel_known-IsValid :
      (a : PaperAdapter dec) (id : String) (order : Order D) (ledger : PaperLedger D)
      → IsFair dec a
      → IsPriced dec order.amount order.price
      → IsValid dec ledger
      → IsValid dec (cancel_known dec a id order ledger).1
  unfolding cancel_known
  cancel_known-IsValid a id order ledger fair priced v =
      let gone = record order { status = canceled; is_paper = true } in
      let held = reservation dec a order in
      elim (Bool-cases (is_final dec order.status)) [
        | inl done ↦ rw done v
        | inr working ↦ rw working (record {
          solvent =
              release-IsSolvent dec laws held.0 held.1 ledger.balances v.solvent
                (reservation_nonneg a order fair priced);
          priced = insert-IsPriced gone ledger v priced id;
        })
      ]

  -- Cancelling any order of such a ledger, or an unknown one, keeps that invariant.
  pub cancel_order-IsValid :
      (a : PaperAdapter dec) (id : String) (ledger : PaperLedger D)
      → IsFair dec a
      → IsValid dec ledger
      → IsValid dec (cancel_order dec a id ledger).1
  unfolding cancel_order
  cancel_order-IsValid a id ledger fair v = elim (Option-cases (lookup id ledger.orders)) [
    | inl e ↦ rw (e, cancel_order) v
    | inr (order, e) ↦
        rw (e, cancel_order) (cancel_known-IsValid a id order ledger fair (v.priced id order e) v)
  ]
