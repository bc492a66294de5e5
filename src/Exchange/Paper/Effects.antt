-- ===== src/Exchange/Paper/Effects.antt =====
-- What placing and cancelling do to the balances of a paper account.
use multi_platform_crypto_tr.Base.{
  String, ◌≡◌, ◌≢◌, refl, true, Option, none, some, arith, eq_iff, str_eq, if◌then◌else◌,
}
use multi_platform_crypto_tr.Base.Dict.{Dict, insert, lookup-insert}
use multi_platform_crypto_tr.Base.Result.{Result, ok, err, map_ok}
use multi_platform_crypto_tr.Decimal.{Decimal}
use multi_platform_crypto_tr.Exceptions.{AppError}
use multi_platform_crypto_tr.Exchange.Models.{Ticker, Balance, OrderRequest, Order, PaperLedger}
use multi_platform_crypto_tr.Exchange.Paper.Funds.{PaperAdapter, balance_of, credit, debit}
use multi_platform_crypto_tr.Exchange.Paper.Fill.{resolve_fill_price}
use multi_platform_crypto_tr.Exchange.Paper.{
  resting_order, filled_order, booked, place_at, create_order, cancel_order,
}
use multi_platform_crypto_tr.Trading.{OrderSide, buy, sell}

module _ (dec : Decimal) where
  open dec use {D, d0, d1, add, sub, mul, le}

  pub balance_of-insert :
      (asset k : String) (b : Balance D) (balances : Dict (Balance D))
      → balance_of dec k (insert asset b balances)
        ≡ (if str_eq asset k then b else balance_of dec k balances)
  unfolding balance_of
  balance_of-insert asset k b balances =
      rw (lookup-insert asset k b balances, balance_of) (ground arith)

  booked_atomic :
      (ledger : PaperLedger D) (order : Order D) (r : Result AppError (Dict (Balance D)))
      (e : AppError)
      → (booked dec ledger order r).0 ≡ err e
      → (booked dec ledger order r).1 ≡ ledger
  booked_atomic ledger order (err x) e h = refl
  booked_atomic ledger order (ok balances) e h = cc

  place_at_atomic :
      (found : Option D) (a : PaperAdapter dec) (ticker : Ticker D) (order_id : String)
      (request : OrderRequest D) (ledger : PaperLedger D) (e : AppError)
      → (place_at dec found a ticker order_id request ledger).0 ≡ err e
      → (place_at dec found a ticker order_id request ledger).1 ≡ ledger
  unfolding place_at
  place_at_atomic none a ticker order_id request ledger e h =
      booked_atomic ledger (resting_order dec order_id request ticker) (_) e h
  place_at_atomic (some p) a ticker order_id request ledger e h =
      booked_atomic ledger
        (filled_order dec order_id request ticker p (mul (mul request.amount p) a.fee_rate)) (_) e h

  -- A cancellation that raises leaves the ledger as it was.
  pub cancel_order_atomic :
      (a : PaperAdapter dec) (id : String) (ledger : PaperLedger D) (e : AppError)
      → (cancel_order dec a id ledger).0 ≡ err e
      → (cancel_order dec a id ledger).1 ≡ ledger
  unfolding cancel_order
  cancel_order_atomic a id ledger e h = ground arith

  -- An order that raises leaves the ledger as it was, balances and orders: a buy that cannot pay has
  -- not been credited, and an order that cannot be backed is not recorded.
  pub create_order_atomic :
      (a : PaperAdapter dec) (fetched : Result AppError (Ticker D)) (id : String)
      (request : OrderRequest D) (ledger : PaperLedger D) (e : AppError)
      → (create_order dec a fetched id request ledger).0 ≡ err e
      → (create_order dec a fetched id request ledger).1 ≡ ledger
  unfolding create_order
  create_order_atomic a (err x) id request ledger e h = refl
  create_order_atomic a (ok ticker) id request ledger e h =
      place_at_atomic (resolve_fill_price dec request ticker) a ticker id request ledger e h

  -- What a fill takes and what it gives, as an asset and an amount each.
  abbrev pub legs : OrderSide → String × String → D → D → D → (String × D) × (String × D)
  legs buy (base, quote) amount cost fee = ((quote, add cost fee), (base, amount))
  legs sell (base, quote) amount cost fee = ((base, amount), (quote, sub cost fee))

  -- `after` has what a fill leaves of `before`: the two assets move, and nothing else does.
  pub record Moved (before after : Dict (Balance D)) (spent received : String × D) : Type 0 where
    pub free_at :
        (k : String)
        → (balance_of dec k after).free ≡ (
            if str_eq spent.0 k
            then sub (balance_of dec k before).free spent.1
            else if str_eq received.0 k
            then add (balance_of dec k before).free received.1
            else (balance_of dec k before).free)
    pub used_at : (k : String) → (balance_of dec k after).used ≡ (balance_of dec k before).used

  pub debit-credit :
      (spent received : String × D) (balances : Dict (Balance D))
      → spent.0 ≢ received.0
      → le spent.1 (balance_of dec spent.0 balances).free ≡ true
      → (after : Dict (Balance D)) × (map_ok
            (credit dec received.0 received.1)
            (debit dec spent.0 spent.1 balances)
          ≡ ok after)
        × Moved balances after spent received
  unfolding debit credit
  debit-credit (s, x) (r, y) balances ne covered =
      let b = balance_of dec s balances in
      let b' : Balance D = record { asset = s; free = sub b.free x; used = b.used } in
      let paid = insert s b' balances in
      let c = balance_of dec r paid in
      let c' : Balance D = record { asset = r; free = add c.free y; used = c.used } in
      (
        insert r c' paid,
        ground arith,
        record {
          free_at = λ k. ground (
            arith,
            balance_of-insert r k c' paid,
            balance_of-insert s k b' balances,
            balance_of-insert s r b' balances,
            eq_iff r k,
            eq_iff s k,
            eq_iff s r,
          );
          used_at = λ k. ground (
            arith,
            balance_of-insert r k c' paid,
            balance_of-insert s k b' balances,
            balance_of-insert s r b' balances,
            eq_iff r k,
            eq_iff s k,
            eq_iff s r,
          );
        },
      )
