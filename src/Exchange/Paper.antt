-- ===== src/Exchange/Paper.antt =====
-- `PaperAdapter` of app/exchange/paper.py: simulated trading on an in-memory ledger. What it fetches
-- from the market, and the order id that it draws, are arguments.
pub mod Funds
pub mod Fill
pub mod Solvent
pub mod Unique
pub mod Prices
pub mod Effects
pub mod Fills
pub mod Resting
pub mod Ledger
pub mod Samples
mod Tests
use multi_platform_crypto_tr.Base.{
  String, Bool, true, false, Option, none, some, List, [], ◌∷◌, not, ◌&&◌, ◌||◌, if◌then◌else◌,
  str_eq,
}
use multi_platform_crypto_tr.Base.Dict.{Dict, lookup, insert}
use multi_platform_crypto_tr.Base.Result.{Result, ok, err, map_ok}
use multi_platform_crypto_tr.Decimal.{Decimal, lt}
use multi_platform_crypto_tr.Exceptions.{AppError, not_found}
use multi_platform_crypto_tr.Exchange.Models.{Ticker, Balance, OrderRequest, Order, PaperLedger}
use multi_platform_crypto_tr.Exchange.Symbol.{split_symbol}
use multi_platform_crypto_tr.Exchange.Paper.Funds.{
  PaperAdapter, credit, debit, reserve, release, reservation,
}
use multi_platform_crypto_tr.Exchange.Paper.Fill.{resolve_fill_price}
use multi_platform_crypto_tr.Trading.{
  OrderSide, buy, sell, OrderStatus, pending, opened, partially_filled, filled, canceled, rejected,
  expired,
}

module _ (dec : Decimal) where
  open dec use {D, d0, add, sub, mul}

  -- `Order(status=open, ...)` for a request that rests
  unfoldable pub resting_order : String → OrderRequest D → Ticker D → Order D
  resting_order order_id request ticker = record {
    id = order_id;
    symbol = request.symbol;
    side = request.side;
    type = request.type;
    status = opened;
    amount = request.amount;
    filled = d0;
    price = request.price;
    average = none;
    timestamp = ticker.timestamp;
    client_order_id = request.client_order_id;
    fee = d0;
    is_paper = true;
  }

  unfoldable pub filled_order : String → OrderRequest D → Ticker D → D → D → Order D
  filled_order order_id request ticker fill_price fee = record {
    id = order_id;
    symbol = request.symbol;
    side = request.side;
    type = request.type;
    status = filled;
    amount = request.amount;
    filled = request.amount;
    price = request.price;
    average = some fill_price;
    timestamp = ticker.timestamp;
    client_order_id = request.client_order_id;
    fee = fee;
    is_paper = true;
  }

  -- `self._orders[order_id] = order`, after the balances were written
  abbrev pub booked :
      PaperLedger D
      → Order D
      → Result AppError (Dict (Balance D))
      → Result AppError (Order D) × PaperLedger D
  booked ledger order (err e) = (err e, ledger)
  booked ledger order (ok balances) = (
    ok order,
    record ledger { balances = balances; orders = insert order.id order ledger.orders },
  )

  -- The funds that a fill moves: a buy pays the cost and the fee, a sell receives the cost less fee.
  unfoldable pub settle :
      OrderSide
      → String × String
      → D
      → D
      → D
      → Dict (Balance D)
      → Result AppError (Dict (Balance D))
  settle buy (base, quote) amount cost fee balances =
      map_ok (credit dec base amount) (debit dec quote (add cost fee) balances)
  settle sell (base, quote) amount cost fee balances =
      map_ok (credit dec quote (sub cost fee)) (debit dec base amount balances)

  -- the body of `create_order` once the ticker is there
  place_at :
      Option D
      → PaperAdapter dec
      → Ticker D
      → String
      → OrderRequest D
      → PaperLedger D
      → Result AppError (Order D) × PaperLedger D
  unfolding resting_order filled_order settle
  place_at none a ticker order_id request ledger =
      let order = resting_order order_id request ticker in
      let (asset, reserved) = reservation dec a order in
      booked ledger order (reserve dec asset reserved ledger.balances)
  place_at (some fill_price) a ticker order_id request ledger =
      let cost = mul request.amount fill_price in
      let fee = mul cost a.fee_rate in
      booked ledger (filled_order order_id request ticker fill_price fee) (
        settle request.side (split_symbol request.symbol a.quote) request.amount cost fee
          ledger.balances)

  -- `create_order`: `fetched` is what `fetch_ticker` returned or raised, `order_id` what
  -- `_new_order_id` drew.
  unfoldable pub create_order :
      PaperAdapter dec
      → Result AppError (Ticker D)
      → String
      → OrderRequest D
      → PaperLedger D
      → Result AppError (Order D) × PaperLedger D
  unfolding place_at
  create_order a (err e) order_id request ledger = (err e, ledger)
  create_order a (ok ticker) order_id request ledger =
      place_at (resolve_fill_price dec request ticker) a ticker order_id request ledger

  -- `order.status in {filled, canceled}`
  abbrev pub is_final : OrderStatus → Bool
  is_final filled = true
  is_final canceled = true
  is_final _ = false

  cancel_known :
      PaperAdapter dec
      → String
      → Order D
      → PaperLedger D
      → Result AppError (Order D) × PaperLedger D
  cancel_known a order_id order ledger =
      let (asset, reserved) = reservation dec a order in
      let gone = record order { status = canceled; is_paper = true } in
      if is_final order.status then (ok order, ledger) else (
        ok gone,
        record ledger {
          balances = release dec asset reserved ledger.balances;
          orders = insert order_id gone ledger.orders;
        },
      )

  unfoldable pub cancel_order :
      PaperAdapter dec → String → PaperLedger D → Result AppError (Order D) × PaperLedger D
  unfolding cancel_known
  cancel_order a order_id ledger = elim (lookup order_id ledger.orders) [
    | none ↦ (err not_found, ledger)
    | some order ↦ cancel_known a order_id order ledger
  ]

  unfoldable pub fetch_order : String → PaperLedger D → Result AppError (Order D)
  fetch_order order_id ledger = elim (lookup order_id ledger.orders) [
    | none ↦ err not_found
    | some order ↦ ok order
  ]

  -- `o.status in {open, partially_filled}`
  abbrev pub is_working : OrderStatus → Bool
  is_working opened = true
  is_working partially_filled = true
  is_working _ = false

  abbrev pub matches_symbol : Option String → String → Bool
  matches_symbol none symbol = true
  matches_symbol (some s) symbol = str_eq symbol s

  pub working_orders : Option String → Dict (Order D) → List (Order D)
  working_orders symbol [] = []
  working_orders symbol ((k, o) ∷ rest) =
      let others = working_orders symbol rest in
      if is_working o.status && matches_symbol symbol o.symbol then o ∷ others else others

  unfoldable pub fetch_open_orders : Option String → PaperLedger D → List (Order D)
  unfolding working_orders
  fetch_open_orders symbol ledger = working_orders symbol ledger.orders

  unfoldable pub held : Dict (Balance D) → List (Balance D)
  held [] = []
  held ((k, b) ∷ rest) =
      let others = held rest in if lt dec d0 (add b.free b.used) then b ∷ others else others

  -- `[b for b in self._balances.values() if b.total > 0]`
  unfoldable pub fetch_balance : PaperLedger D → List (Balance D)
  unfolding held
  fetch_balance ledger = held ledger.balances
