-- ===== src/Schemas/Accepted.antt =====
-- What an accepted order does to a paper ledger.
use multi_platform_crypto_tr.Base.{◌≡◌, String, true, Option, none, some, arith}
use multi_platform_crypto_tr.Base.Result.{Result, Yields}
use multi_platform_crypto_tr.Decimal.{Decimal, IsRounding}
use multi_platform_crypto_tr.Exceptions.{AppError}
use multi_platform_crypto_tr.Exchange.Models.{Ticker, PaperLedger}
use multi_platform_crypto_tr.Exchange.Paper.Funds.{PaperAdapter, price_or_zero}
use multi_platform_crypto_tr.Exchange.Paper.{create_order}
use multi_platform_crypto_tr.Exchange.Paper.Ledger.{IsValid, IsFair, create_order-IsValid}
use multi_platform_crypto_tr.Schemas.{OrderCreate, is_accepted, is_positive, request_of}

module _ (dec : Decimal) (laws : IsRounding dec) where
  open dec use {D, d0, le}

  positive_price :
      (price : Option D) → is_positive dec price ≡ true → le d0 (price_or_zero dec price) ≡ true
  positive_price none h = laws.le_refl d0
  positive_price (some p) h = laws.le_total p d0 (ground (arith, h))

  -- Whatever order the API accepts, placing it on paper leaves a ledger without a negative balance and
  -- without an order of negative amount or price, also if it fails; this asks for a fee rate between 0
  -- and 1, a last price that is not negative, and such a ledger before.
  pub accepted_order-IsValid :
      (p : OrderCreate dec) (client_order_id order_id : String) (a : PaperAdapter dec)
      (fetched : Result AppError (Ticker D)) (ledger : PaperLedger D)
      → is_accepted dec p ≡ true
      → IsFair dec a
      → Yields (λ (t : Ticker D). le d0 t.last ≡ true) fetched
      → IsValid dec ledger
      → IsValid dec
          (create_order dec a fetched order_id (request_of dec p client_order_id) ledger).1
  unfolding is_accepted request_of
  accepted_order-IsValid p client_order_id order_id a fetched ledger accepted fair last_ok v =
      create_order-IsValid dec laws a fetched order_id (request_of dec p client_order_id) ledger
        fair
        (
          laws.le_total p.amount d0 (ground (arith, accepted)),
          positive_price p.price (ground (arith, accepted)),
        )
        last_ok v
