-- ===== src/Trading/Service/Cancel.antt =====
-- `cancel_order` of app/services/trading_service.py, for accounts that trade on paper.
-- Whether `build_adapter` returned or raised is an argument.
pub mod Final
use multi_platform_crypto_tr.Base.{
  String, Bool, true, false, ◌||◌, Option, none, some, str_eq, if◌then◌else◌,
}
use multi_platform_crypto_tr.Base.Dict.{lookup, insert}
use multi_platform_crypto_tr.Base.Result.{Result, ok, err}
use multi_platform_crypto_tr.Decimal.{Decimal}
use multi_platform_crypto_tr.Exceptions.{AppError, not_found}
use multi_platform_crypto_tr.Exchange.Models.{Order, PaperLedger}
use multi_platform_crypto_tr.Exchange.Paper.{is_final, cancel_order}
use multi_platform_crypto_tr.Exchange.Paper.Funds.{PaperAdapter}
use multi_platform_crypto_tr.Trading.{OrderStatus, canceled}
use multi_platform_crypto_tr.Trading.Service.Store.{OrderRecord, Desk, load, save, is_owner}

module _ (dec : Decimal) where
  open dec use {D}

  -- `except NotFoundError`
  abbrev pub is_not_found : AppError → Bool
  is_not_found not_found = true
  is_not_found _ = false

  -- `get_for_user`
  abbrev pub for_user : Option (OrderRecord D) → String → Option (OrderRecord D)
  for_user none user_id = none
  for_user (some row) user_id = if str_eq row.user_id user_id then some row else none

  -- the new status of the row, and the ledger, once the exchange was asked
  unfoldable pub settled :
      Result AppError (Order D) × PaperLedger D → Result AppError OrderStatus × PaperLedger D
  settled (ok order, ledger) = (ok order.status, ledger)
  settled (err e, ledger) = if is_not_found e then (ok canceled, ledger) else (err e, ledger)

  unfoldable pub ask_exchange :
      PaperAdapter dec → Option String → PaperLedger D → Result AppError OrderStatus × PaperLedger D
  unfolding settled
  ask_exchange a none ledger = (ok canceled, ledger)
  ask_exchange a (some id) ledger =
      if str_eq id "" then (ok canceled, ledger) else settled (cancel_order dec a id ledger)

  written :
      String
      → OrderRecord D
      → Desk D
      → Result AppError OrderStatus × PaperLedger D
      → Result AppError (OrderRecord D) × Desk D
  written order_id row desk (err e, ledger) = (err e, save dec row.account_id ledger desk)
  written order_id row desk (ok status, ledger) =
      let row' : OrderRecord D = record row { status = status } in
      let desk' = save dec row.account_id ledger desk in
      (ok row', record desk' { records = insert order_id row' desk'.records })

  -- the session, which builds the adapter once the ledger is loaded; an error there saves nothing
  in_session :
      PaperAdapter dec
      → Result AppError (Unit {0})
      → String
      → OrderRecord D
      → PaperLedger D
      → Desk D
      → Result AppError (OrderRecord D) × Desk D
  unfolding written
  in_session a (err e) order_id row ledger desk = (err e, desk)
  in_session a (ok built) order_id row ledger desk =
      written order_id row desk (ask_exchange a row.exchange_order_id ledger)

  unfoldable pub cancel_row :
      PaperAdapter dec
      → D
      → Result AppError (Unit {0})
      → String
      → String
      → Desk D
      → Option (OrderRecord D)
      → Result AppError (OrderRecord D) × Desk D
  unfolding in_session
  cancel_row a starting built user_id order_id desk none = (err not_found, desk)
  cancel_row a starting built user_id order_id desk (some row) =
      if is_final dec row.status
      then (ok row, desk)
      else if is_owner (lookup row.account_id desk.owners) user_id
      then in_session a built order_id row (load dec starting row.account_id desk) desk
      else (err not_found, desk)

  -- `cancel_order`
  unfoldable pub cancel_record :
      PaperAdapter dec
      → D
      → Result AppError (Unit {0})
      → String
      → String
      → Desk D
      → Result AppError (OrderRecord D) × Desk D
  cancel_record a starting built user_id order_id desk =
      cancel_row a starting built user_id order_id desk
        (for_user (lookup order_id desk.records) user_id)
