-- ===== src/Trading/Service/Refused.antt =====
-- What an order that is refused leaves stored.
use multi_platform_crypto_tr.Base.{
  ℕ, String, ◌≡◌, ◌≢◌, ◌⊎◌, ◌∙◌, refl, ap, sym, inl, inr, Option, none, some, [], ◌∷◌, arith,
  Bool-cases,
}
use multi_platform_crypto_tr.Base.Dict.{Dict, lookup}
use multi_platform_crypto_tr.Base.Result.{Result, err, Result-cases}
use multi_platform_crypto_tr.Decimal.{Decimal}
use multi_platform_crypto_tr.Exceptions.{AppError}
use multi_platform_crypto_tr.Exchange.Models.{Balance, OrderRequest, Order, PaperLedger}
use multi_platform_crypto_tr.Exchange.Paper.{create_order}
use multi_platform_crypto_tr.Exchange.Paper.Funds.{PaperAdapter}
use multi_platform_crypto_tr.Exchange.Paper.Effects.{create_order_atomic}
use multi_platform_crypto_tr.Trading.Risk.{RiskLimits}
use multi_platform_crypto_tr.Trading.Service.Store.{OrderRecord, Desk, load, save, is_owner}
use multi_platform_crypto_tr.Trading.Service.Store.Saved.{
  rows_in, IsTable, IsSaved, or_stored, load-IsLoaded, load-IsTable, save-IsSaved,
}
use multi_platform_crypto_tr.Trading.Service.{
  Draws, reference_price, checked, check_and_create, place_order,
}

module _ (dec : Decimal) where
  open dec use {D, d0}

  -- The stored balances of the account are what they were, or it had none and has the starting balance.
  abbrev pub KeepsRows : D → Dict (Balance D) → Dict (Balance D) → Type 0
  KeepsRows starting rows rows' =
      ((asset : String) → lookup asset rows' ≡ lookup asset rows)
      ⊎ ((rows ≡ [])
          × ((asset : String)
              → lookup asset rows'
                ≡ lookup asset
                    (("USDT", record { asset = "USDT"; free = starting; used = d0 }) ∷ [])))

  or_stored-none : (o : Option (Balance D)) → or_stored dec o none ≡ o
  or_stored-none none = refl
  or_stored-none (some b) = refl

  or_stored_self : (o : Option (Balance D)) → or_stored dec o o ≡ o
  or_stored_self none = refl
  or_stored_self (some b) = refl

  saved-KeepsRows :
      (starting : D) (account_id : String) (desk desk' : Desk D)
      → IsSaved dec account_id (load dec starting account_id desk).balances desk desk'
      → KeepsRows starting (rows_in dec desk account_id) (rows_in dec desk' account_id)
  unfolding lookup
  saved-KeepsRows starting account_id desk desk' saved =
      elim (load-IsLoaded dec starting account_id desk) [
        | inl (empty, seed) ↦ inr (
          empty,
          λ asset.
              saved.0 asset
              ∙ ap
                  (λ d.
                    or_stored dec (lookup asset (load dec starting account_id desk).balances)
                      (lookup asset d))
                  empty
              ∙ or_stored-none (lookup asset (load dec starting account_id desk).balances)
              ∙ ap (lookup asset) seed,
        )
        | inr (some_rows, same) ↦ inl (λ asset.
            saved.0 asset
            ∙ ap (λ d. or_stored dec (lookup asset d) (lookup asset (rows_in dec desk account_id)))
                same
            ∙ or_stored_self (lookup asset (rows_in dec desk account_id)))
      ]

module _ (dec : Decimal) (a : PaperAdapter dec) (limits : RiskLimits dec) (of_ℕ : ℕ → dec.D)
    (starting : dec.D) (built : Result AppError (Unit {0})) (draws : Draws dec)
    (user_id account_id : String) (request : OrderRequest dec.D) (desk : Desk dec.D) where
  open dec use {D}

  abbrev ledger : PaperLedger D
  ledger = load dec starting account_id desk

  abbrev outcome : Result AppError (OrderRecord D) × Desk D
  outcome = place_order dec a limits of_ℕ starting built draws user_id account_id request desk

  refuses :
      (r : Result AppError (Order D) × PaperLedger D) (x : AppError)
      → check_and_create dec a limits of_ℕ draws request ledger ≡ r
      → r.0 ≡ err x
      → r.1 ≡ ledger
  unfolding check_and_create
  refuses r x e h = elim (Result-cases (reference_price dec request.price draws.quoted)) [
    | inl (ref_price, priced) ↦
        elim (Result-cases (checked dec limits of_ℕ request ref_price ledger)) [
          | inl (u, passed) ↦
              let same : create_order dec a draws.fetched draws.order_id request ledger ≡ r =
                ground (arith, priced, passed, e) in
              let fails : (create_order dec a draws.fetched draws.order_id request ledger).0
                  ≡ err x =
                rw same h in
              ap (λ p. p.1) (sym same)
              ∙ create_order_atomic dec a draws.fetched draws.order_id request ledger x fails
          | inr (y, failed) ↦ ground (arith, priced, failed, e, h)
        ]
    | inr (y, failed) ↦ ground (arith, failed, e, h)
  ]

  keeps :
      (r : Result AppError (Order D) × PaperLedger D) (e : AppError)
      → check_and_create dec a limits of_ℕ draws request ledger ≡ r
      → outcome.0 ≡ err e
      → (outcome.1 ≡ desk) ⊎ (outcome.1 ≡ save dec account_id ledger desk)
  unfolding place_order
  keeps r e same h = elim (Bool-cases (is_owner (lookup account_id desk.owners) user_id)) [
    | inr foreign ↦ inl (ground (arith, foreign))
    | inl owned ↦ elim (Result-cases built) [
      | inr (x, failed) ↦ inl (ground (arith, failed, owned))
      | inl (u, opened) ↦ elim (Result-cases r.0) [
        | inl (order, made) ↦ ground (arith, made, opened, same, owned, h)
        | inr (x, failed) ↦
            inr (ground (arith, failed, opened, same, owned, refuses r x same failed))
      ]
    ]
  ]

  -- An order that is refused, because there is no such account of the user, its adapter could not be
  -- built, a price could not be fetched, or the check or the exchange refused it, leaves the order rows
  -- and the balances of the other accounts as they were, and for every asset the stored balance of the
  -- account too; only an account that had no balances may now have its starting balance stored. This
  -- asks for one stored balance for each asset.
  pub refused_order_keeps :
      (e : AppError)
      → IsTable dec (rows_in dec desk account_id)
      → (place_order dec a limits of_ℕ starting built draws user_id account_id request desk).0
        ≡ err e
      → let desk' =
          (place_order dec a limits of_ℕ starting built draws user_id account_id request desk).1 in
        (desk'.records ≡ desk.records)
        × (desk'.owners ≡ desk.owners)
        × ((other : String)
            → other ≢ account_id
            → lookup other desk'.balances ≡ lookup other desk.balances)
        × KeepsRows dec starting (rows_in dec desk account_id) (rows_in dec desk' account_id)
  unfolding save
  refused_order_keeps e table h =
      elim (keeps (check_and_create dec a limits of_ℕ draws request ledger) e refl h) [
        | inl same ↦ rw same (refl, refl, λ other apart. refl, inl (λ asset. refl))
        | inr left ↦
            let saved =
              save-IsSaved dec account_id ledger desk
                (load-IsTable dec starting account_id desk table).0 in
            rw left (
              refl,
              refl,
              saved.1,
              saved-KeepsRows dec starting account_id desk (save dec account_id ledger desk) saved,
            )
      ]
