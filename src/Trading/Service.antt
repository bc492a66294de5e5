-- ===== src/Trading/Service.antt =====
-- Placing and cancelling orders, app/services/trading_service.py, for accounts that trade on paper,
-- under `adapter_session` of app/services/account_service.py. What its `build_adapter` did, which is
-- modelled in Accounts, is an argument: it returned, or raised. The desk is what the session of the
-- request holds; the request commits it, or rolls it back on an error.
pub mod Store
pub mod Equity
pub mod Within
pub mod Checked
pub mod Refused
pub mod Cancel
mod Tests
use multi_platform_crypto_tr.Base.{
  ℕ, String, Bool, true, false, not, ◌==◌, ◌&&◌, Option, none, some, List, [], ◌∷◌, str_eq,
  if◌then◌else◌,
}
use multi_platform_crypto_tr.Base.Dict.{Dict, lookup, insert}
use multi_platform_crypto_tr.Base.Result.{Result, ok, err, and_then}
use multi_platform_crypto_tr.Decimal.{Decimal, lt}
use multi_platform_crypto_tr.Exceptions.{AppError, not_found}
use multi_platform_crypto_tr.Exchange.Models.{Ticker, Balance, OrderRequest, Order, PaperLedger}
use multi_platform_crypto_tr.Exchange.Symbol.{split_symbol}
use multi_platform_crypto_tr.Exchange.Paper
use multi_platform_crypto_tr.Exchange.Paper.{is_final, is_working, fetch_balance, create_order}
use multi_platform_crypto_tr.Exchange.Paper.Funds.{PaperAdapter}
use multi_platform_crypto_tr.Trading.{OrderSide, OrderType, OrderStatus, canceled, filled}
use multi_platform_crypto_tr.Trading.Risk.{RiskLimits, check_order}
use multi_platform_crypto_tr.Trading.Service.Store.{OrderRecord, Desk, is_owner, load, save}

module _ (dec : Decimal) where
  open dec use {D, d0, d1, add, mul}

  -- `bal.total` of the first balance in the quote asset, and 0 without one
  unfoldable pub equity_in : String → List (Balance D) → D
  equity_in quote [] = d0
  equity_in quote (bal ∷ rest) =
      let others = equity_in quote rest in
      if str_eq bal.asset quote then add bal.free bal.used else others

  -- `_quote_equity`; reading the balances of a paper account does not raise
  unfoldable pub quote_equity : String → PaperLedger D → D
  quote_equity symbol ledger = equity_in (split_symbol symbol "USDT").1 (fetch_balance dec ledger)

  -- `Decimal(leverage or 1)`, with the conversion of whole numbers
  abbrev pub leverage_of : (ℕ → D) → Option ℕ → D
  leverage_of of_ℕ none = d1
  leverage_of of_ℕ (some n) = if n == 0 then d1 else of_ℕ n

  -- `price`, or the last price of the ticker that is fetched without one
  abbrev pub reference_price : Option D → Result AppError (Ticker D) → Result AppError D
  reference_price (some price) quoted = ok price
  reference_price none (ok ticker) = ok ticker.last
  reference_price none (err e) = err e

  -- the check of the risk limits before the order is placed
  unfoldable pub checked :
      RiskLimits dec → (ℕ → D) → OrderRequest D → D → PaperLedger D → Result AppError (Unit {0})
  checked limits of_ℕ request ref_price ledger =
      let notional = mul request.amount ref_price in
      let equity = quote_equity request.symbol ledger in
      check_order dec limits notional
        (if lt dec d0 equity then equity else mul notional limits.max_leverage)
        (leverage_of of_ℕ request.leverage) none

  -- `_persist`
  unfoldable pub record_of : String → String → Order D → OrderRecord D
  record_of user_id account_id order = record {
    user_id = user_id;
    account_id = account_id;
    exchange_order_id = some order.id;
    client_order_id = order.client_order_id;
    symbol = order.symbol;
    side = order.side;
    type = order.type;
    status = order.status;
    amount = order.amount;
    filled = order.filled;
    price = order.price;
    average = order.average;
    fee = order.fee;
    is_paper = order.is_paper;
  }

  -- what one request is given: the two tickers that it may fetch, and the identifiers that it draws
  pub record Draws : Type 0 where
    pub quoted : Result AppError (Ticker D)
    pub fetched : Result AppError (Ticker D)
    pub order_id : String
    pub record_id : String

  -- the body of the `with` block of `place_order` on the adapter's ledger
  unfoldable pub check_and_create :
      PaperAdapter dec
      → RiskLimits dec
      → (ℕ → D)
      → Draws
      → OrderRequest D
      → PaperLedger D
      → Result AppError (Order D) × PaperLedger D
  check_and_create a limits of_ℕ draws request ledger =
      elim (and_then (reference_price request.price draws.quoted)
        (λ ref_price. checked limits of_ℕ request ref_price ledger)) [
          | err e ↦ (err e, ledger)
          | ok u ↦ create_order dec a draws.fetched draws.order_id request ledger
        ]

  -- the end of `place_order` and of the session: the order row, and the ledger
  stored :
      String
      → String
      → String
      → Desk D
      → Result AppError (Order D) × PaperLedger D
      → Result AppError (OrderRecord D) × Desk D
  unfolding record_of
  stored user_id account_id record_id desk (err e, ledger) =
      (err e, save dec account_id ledger desk)
  stored user_id account_id record_id desk (ok order, ledger) =
      let row = record_of user_id account_id order in
      let desk' = save dec account_id ledger desk in
      (ok row, record desk' { records = insert record_id row desk'.records })

  -- the session, which builds the adapter once the ledger is loaded; an error there saves nothing
  in_session :
      PaperAdapter dec
      → RiskLimits dec
      → (ℕ → D)
      → Result AppError (Unit {0})
      → Draws
      → String
      → String
      → OrderRequest D
      → PaperLedger D
      → Desk D
      → Result AppError (OrderRecord D) × Desk D
  unfolding stored
  in_session a limits of_ℕ (err e) draws user_id account_id request ledger desk = (err e, desk)
  in_session a limits of_ℕ (ok built) draws user_id account_id request ledger desk =
      stored user_id account_id draws.record_id desk
        (check_and_create a limits of_ℕ draws request ledger)

  -- `place_order` for an account that trades on paper
  unfoldable pub place_order :
      PaperAdapter dec
      → RiskLimits dec
      → (ℕ → D)
      → D
      → Result AppError (Unit {0})
      → Draws
      → String
      → String
      → OrderRequest D
      → Desk D
      → Result AppError (OrderRecord D) × Desk D
  unfolding in_session
  place_order a limits of_ℕ starting built draws user_id account_id request desk =
      if is_owner (lookup account_id desk.owners) user_id
      then in_session a limits of_ℕ built draws user_id account_id request
          (load dec starting account_id desk) desk
      else (err not_found, desk)
