-- ===== src/Exchange/Paper/Resting.antt =====
-- Resting paper orders: what they hold reserved, and what cancelling gives back.
use multi_platform_crypto_tr.Base.{String, ◌≡◌, refl, true, none, arith, eq_iff}
use multi_platform_crypto_tr.Base.Dict.{Dict, insert, lookup-insert_self}
use multi_platform_crypto_tr.Base.Result.{ok}
use multi_platform_crypto_tr.Decimal.{Decimal, IsRounding, dmin}
use multi_platform_crypto_tr.Exchange.Models.{Ticker, Balance, OrderRequest, Order, PaperLedger}
use multi_platform_crypto_tr.Exchange.Paper.Funds.{
  PaperAdapter, balance_of, reserve, release, reservation,
}
use multi_platform_crypto_tr.Exchange.Paper.Fill.{resolve_fill_price}
use multi_platform_crypto_tr.Exchange.Paper.{
  resting_order, place_at, create_order, cancel_known, cancel_order,
}
use multi_platform_crypto_tr.Exchange.Paper.Effects.{balance_of-insert}
use multi_platform_crypto_tr.Trading.{buy, stop, canceled}

module _ (dec : Decimal) where
  open dec use {D, d0, add, sub, le}

  -- Taking `r` out of the free balance and adding it to the reserved one needs no rounding, so that
  -- putting it back restores both.
  abbrev pub IsExact : Balance D → D → Type 0
  IsExact b r = (add (sub b.free r) r ≡ b.free) × (sub (add b.used r) r ≡ b.used)

  -- The same funds.
  abbrev pub SameFunds : Balance D → Balance D → Type 0
  SameFunds b c = (b.free ≡ c.free) × (b.used ≡ c.used)

module _ (dec : Decimal) (laws : IsRounding dec) where
  open dec use {D, d0, add, sub, mul, le}

  -- what `reserve` writes
  abbrev holding : Balance D → D → String → Balance D
  holding b r asset = record { asset = asset; free = sub b.free r; used = add b.used r }

  dmin_reserved : (u r : D) → le d0 u ≡ true → dmin dec r (add u r) ≡ r
  dmin_reserved u r h = ground (arith, laws.add_ge_self r u, laws.add_comm u r)

  reserve_release :
      (asset : String) (r : D) (balances : Dict (Balance D)) (k : String)
      → le d0 (balance_of dec asset balances).used ≡ true
      → IsExact dec (balance_of dec asset balances) r
      → SameFunds dec
          (balance_of dec k (
            release dec asset r
              (insert asset (holding (balance_of dec asset balances) r asset) balances)))
          (balance_of dec k balances)
  unfolding release
  reserve_release asset r balances k pos exact =
      let b = balance_of dec asset balances in
      let held = insert asset (holding b r asset) balances in
      let c = balance_of dec asset held in
      let freed = dmin dec r c.used in
      let c' : Balance D = record {
        asset = asset;
        free = add c.free freed;
        used = sub c.used freed;
      } in
      ground (
        arith,
        balance_of-insert dec asset k c' held,
        balance_of-insert dec asset k (holding b r asset) balances,
        balance_of-insert dec asset asset (holding b r asset) balances,
        eq_iff asset k,
        eq_iff asset asset,
        dmin_reserved b.used r pos,
      )

  module _ (a : PaperAdapter dec) (ticker : Ticker D) (id : String) (request : OrderRequest D)
      (ledger : PaperLedger D) where
    abbrev order : Order D
    order = resting_order dec id request ticker

    -- The asset that the order holds reserved, and how much of it.
    abbrev pub hold : String × D
    hold = reservation dec a order

    abbrev holder : Balance D
    holder = balance_of dec hold.0 ledger.balances

    abbrev rested : PaperLedger D
    rested = record ledger {
      balances = insert hold.0 (holding holder hold.1 hold.0) ledger.balances;
      orders = insert id order ledger.orders;
    }

    rests :
        resolve_fill_price dec request ticker ≡ none
        → le hold.1 holder.free ≡ true
        → create_order dec a (ok ticker) id request ledger ≡ (ok order, rested)
    unfolding create_order place_at reserve resting_order
    rests e covered = ground arith

    cancels_rested : cancel_order dec a id rested ≡ (
      ok (record order { status = canceled }),
      record rested {
        balances = release dec hold.0 hold.1 rested.balances;
        orders = insert id (record order { status = canceled }) rested.orders;
      },
    )
    unfolding cancel_order cancel_known resting_order
    cancels_rested = rw (lookup-insert_self id order ledger.orders, cancel_order) refl

    -- An order that rests and is backed by free funds is recorded, and cancelling it marks it
    -- cancelled and gives every asset the free and reserved funds that it had before the order, if
    -- the reserved balance is not negative and moving the reserved amount there needed no rounding.
    pub cancel_undoes_rest :
        resolve_fill_price dec request ticker ≡ none
        → le hold.1 holder.free ≡ true
        → le d0 holder.used ≡ true
        → IsExact dec holder hold.1
        → let (placed, resting) = create_order dec a (ok ticker) id request ledger in
          let (out, after) = cancel_order dec a id resting in
          (placed ≡ ok order)
          × (out ≡ ok (record order { status = canceled }))
          × ((k : String)
              → SameFunds dec (balance_of dec k after.balances) (balance_of dec k ledger.balances))
    cancel_undoes_rest e covered pos exact =
        rw (rests e covered, cancels_rested)
          (refl, refl, λ k. reserve_release hold.0 hold.1 ledger.balances k pos exact)

    stop_buy_hold : request.side ≡ buy → request.price ≡ none → hold.1 ≡ d0
    unfolding reservation resting_order
    stop_buy_hold s p =
        ground (arith, laws.mul_zero request.amount, laws.zero_mul a.fee_rate, laws.add_zero d0)

    stop_rests : request.type ≡ stop → resolve_fill_price dec request ticker ≡ none
    unfolding resolve_fill_price
    stop_rests t = ground arith

    holds_zero :
        hold.1 ≡ d0
        → (k : String)
        → SameFunds dec (balance_of dec k rested.balances) (balance_of dec k ledger.balances)
    holds_zero z k = ground (
      arith,
      balance_of-insert dec hold.0 k (holding holder hold.1 hold.0) ledger.balances,
      eq_iff hold.0 k,
      laws.sub_zero holder.free,
      laws.add_zero holder.used,
    )

    -- A stop order to buy without a limit price always rests, whatever its amount and however little
    -- the account holds: it reserves nothing, so the free and reserved funds of every asset stay the
    -- same, as long as the free quote balance is not negative.
    pub stop_buy_reserves_nothing :
        request.type ≡ stop
        → request.side ≡ buy
        → request.price ≡ none
        → le d0 holder.free ≡ true
        → let (placed, resting) = create_order dec a (ok ticker) id request ledger in
          (placed ≡ ok order)
          × ((k : String)
              → SameFunds dec
                  (balance_of dec k resting.balances)
                  (balance_of dec k ledger.balances))
    stop_buy_reserves_nothing t s p pos =
        let z = stop_buy_hold s p in rw (rests (stop_rests t) (rw z pos)) (refl, holds_zero z)
