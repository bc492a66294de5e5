-- ===== src/Trading/Service/Cancel/Final.antt =====
-- What a cancellation leaves of an order row.
use multi_platform_crypto_tr.Base.{
  String, ◌≡◌, ◌≢◌, refl, inl, inr, true, Option, none, some, arith, eq_iff, Bool-cases,
  Option-cases, str_eq,
}
use multi_platform_crypto_tr.Base.Dict.{lookup, lookup-insert, lookup-insert_self}
use multi_platform_crypto_tr.Base.Result.{Result, ok, err}
use multi_platform_crypto_tr.Decimal.{Decimal}
use multi_platform_crypto_tr.Exceptions.{AppError, not_found}
use multi_platform_crypto_tr.Exchange.Models.{PaperLedger}
use multi_platform_crypto_tr.Exchange.Paper.{is_final, cancel_order}
use multi_platform_crypto_tr.Exchange.Paper.Funds.{PaperAdapter}
use multi_platform_crypto_tr.Trading.{OrderStatus, canceled}
use multi_platform_crypto_tr.Trading.Service.Store.{OrderRecord, Desk, load, save, is_owner}
use multi_platform_crypto_tr.Trading.Service.Cancel.{
  settled, ask_exchange, cancel_row, cancel_record,
}

module _ (dec : Decimal) (a : PaperAdapter dec) where
  open dec use {D}

  -- The exchange answers with a final status, or does not know the order.
  cancels :
      (id : String) (ledger : PaperLedger D)
      → (status : OrderStatus) × ((settled dec (cancel_order dec a id ledger)).0 ≡ ok status)
        × (is_final dec status ≡ true)
  unfolding settled cancel_order
  cancels id ledger = elim (Option-cases (lookup id ledger.orders)) [
    | inl unknown ↦ (canceled, ground (arith, unknown), refl)
    | inr (order, known) ↦ elim (Bool-cases (is_final dec order.status)) [
      | inl done ↦ (order.status, ground (arith, known, done), done)
      | inr working ↦ (canceled, ground (arith, known, working), refl)
    ]
  ]

  asked_is_final :
      (id : Option String) (ledger : PaperLedger D)
      → (status : OrderStatus) × ((ask_exchange dec a id ledger).0 ≡ ok status)
        × (is_final dec status ≡ true)
  unfolding ask_exchange
  asked_is_final none ledger = (canceled, refl, refl)
  asked_is_final (some id) ledger =
      let (status, e, final) = cancels id ledger in
      elim (Bool-cases (str_eq id "")) [
        | inl empty ↦ (canceled, ground (arith, empty), refl)
        | inr given ↦ (status, ground (arith, given, e), final)
      ]

  -- The owner of an order row, and of its account, which trades on paper and whose adapter could be
  -- built, can cancel it: the row that is returned is the stored one with a final status, cancelled
  -- or filled, it is stored, and every other row is as it was.
  pub cancel_ends_order :
      (starting : D) (built : Result AppError (Unit {0})) (user_id order_id : String)
      (desk : Desk D) (row : OrderRecord D)
      → built ≡ ok tt
      → lookup order_id desk.records ≡ some row
      → row.user_id ≡ user_id
      → lookup row.account_id desk.owners ≡ some user_id
      → (status : OrderStatus) × (is_final dec status ≡ true)
        × ((cancel_record dec a starting built user_id order_id desk).0
            ≡ ok (record row { status = status }))
        × (lookup order_id (cancel_record dec a starting built user_id order_id desk).1.records
            ≡ some (record row { status = status }))
        × ((other : String)
            → other ≢ order_id
            → lookup other (cancel_record dec a starting built user_id order_id desk).1.records
              ≡ lookup other desk.records)
  unfolding cancel_record cancel_row is_owner save
  cancel_ends_order starting (err x) user_id order_id desk row opened found mine owned =
      ground (arith, opened)
  cancel_ends_order starting (ok built) user_id order_id desk row opened found mine owned =
      let (status, e, final) =
        asked_is_final row.exchange_order_id (load dec starting row.account_id desk) in
      elim (Bool-cases (is_final dec row.status)) [
        | inl done ↦ (
          row.status,
          done,
          ground (arith, found, mine, done, eq_iff row.user_id user_id),
          ground (arith, found, mine, done, eq_iff row.user_id user_id),
          λ other apart. ground (arith, found, mine, done, eq_iff row.user_id user_id),
        )
        | inr working ↦ (
          status,
          final,
          ground (
            arith,
            found,
            mine,
            working,
            owned,
            e,
            eq_iff row.user_id user_id,
            eq_iff user_id user_id,
          ),
          ground (
            arith,
            found,
            mine,
            working,
            owned,
            e,
            eq_iff row.user_id user_id,
            eq_iff user_id user_id,
            lookup-insert_self order_id (record row { status = status }) desk.records,
          ),
          λ other apart. ground (
            arith,
            found,
            mine,
            working,
            owned,
            e,
            apart,
            eq_iff order_id other,
            eq_iff row.user_id user_id,
            eq_iff user_id user_id,
            lookup-insert order_id other (record row { status = status }) desk.records,
          ),
        )
      ]

  -- Nobody else can: the request is answered as if there were no such order, and changes nothing.
  pub foreign_cancel_refused :
      (starting : D) (built : Result AppError (Unit {0})) (user_id order_id : String)
      (desk : Desk D) (row : OrderRecord D)
      → lookup order_id desk.records ≡ some row
      → (row.user_id ≡ user_id → ⊥)
      → cancel_record dec a starting built user_id order_id desk ≡ (err not_found, desk)
  unfolding cancel_record cancel_row
  foreign_cancel_refused starting built user_id order_id desk row found other =
      ground (arith, found, other, eq_iff row.user_id user_id)
