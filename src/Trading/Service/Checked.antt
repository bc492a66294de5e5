-- ===== src/Trading/Service/Checked.antt =====
-- No order is placed past the risk limits, and what placing one stores.
use multi_platform_crypto_tr.Base.{ℕ, String}
use multi_platform_crypto_tr.Base.Dict.{insert}
use multi_platform_crypto_tr.Base.Result.{Result}
use multi_platform_crypto_tr.Decimal.{Decimal}
use multi_platform_crypto_tr.Exceptions.{AppError}
use multi_platform_crypto_tr.Exchange.Models.{OrderRequest, Order, PaperLedger}
use multi_platform_crypto_tr.Exchange.Paper.Funds.{PaperAdapter}
use multi_platform_crypto_tr.Trading.Risk.{RiskLimits}
use multi_platform_crypto_tr.Trading.Service.Store.{OrderRecord, Desk, load, save}
use multi_platform_crypto_tr.Trading.Service.{Draws, record_of, place_order}

module _ (dec : Decimal) (a : PaperAdapter dec) (limits : RiskLimits dec) (of_ℕ : ℕ → dec.D)
    (starting : dec.D) (built : Result AppError (Unit {0})) (draws : Draws dec)
    (user_id account_id : String) (request : OrderRequest dec.D) (desk : Desk dec.D) where
  open dec use {D}

  abbrev ledger : PaperLedger D
  ledger = load dec starting account_id desk

  abbrev outcome : Result AppError (OrderRecord D) × Desk D
  outcome = place_order dec a limits of_ℕ starting built draws user_id account_id request desk

  -- what is stored with an order that was placed
  abbrev left_behind : Order D → PaperLedger D → Desk D
  left_behind order after = record (save dec account_id after desk) {
    records = insert draws.record_id (record_of dec user_id account_id order) desk.records;
  }
