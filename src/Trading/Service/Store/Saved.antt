-- ===== src/Trading/Service/Store/Saved.antt =====
-- What the paper balances of an account are once they are loaded, and once they are saved.
use multi_platform_crypto_tr.Base.{
  String, ◌≡◌, ◌≢◌, ◌⊎◌, refl, inl, inr, Option, none, some, [], ◌∷◌, arith, eq_iff,
}
use multi_platform_crypto_tr.Base.Dict.{
  Dict, lookup, insert, lookup-insert, lookup-insert_self, HasUniqueKeys,
}
use multi_platform_crypto_tr.Decimal.{Decimal}
use multi_platform_crypto_tr.Exchange.Models.{Balance, PaperLedger}
use multi_platform_crypto_tr.Trading.Service.Store.{Desk, seeded, load, upsert, rows_of, save}

module _ (dec : Decimal) where
  open dec use {D, d0}

  -- The stored balances of an account.
  abbrev pub rows_in : Desk D → String → Dict (Balance D)
  rows_in desk account_id = rows_of dec (lookup account_id desk.balances)

  -- Each row stands under its asset.
  abbrev pub HasNames : Dict (Balance D) → Type 0
  HasNames [] = Unit
  HasNames ((asset, bal) ∷ rest) = (bal.asset ≡ asset) × HasNames rest

  -- The rows of an account: one for each asset, as the table's unique constraint has it.
  abbrev pub IsTable : Dict (Balance D) → Type 0
  IsTable rows = HasUniqueKeys rows × HasNames rows

  -- What an account trades with: its stored balances, or the starting balance if there are none.
  abbrev pub IsLoaded : D → Dict (Balance D) → Dict (Balance D) → Type 0
  IsLoaded starting rows loaded =
      ((rows ≡ [])
        × (loaded ≡ ("USDT", record { asset = "USDT"; free = starting; used = d0 }) ∷ []))
      ⊎ ((rows ≢ []) × (loaded ≡ rows))

  seeded-IsLoaded :
      (starting : D) (found : Option (Dict (Balance D)))
      → IsLoaded starting (rows_of dec found) (seeded dec starting found)
  unfolding seeded
  seeded-IsLoaded starting none = inl (refl, refl)
  seeded-IsLoaded starting (some []) = inl (refl, refl)
  seeded-IsLoaded starting (some (b ∷ rows)) = inr (λ e. ground (arith, e), refl)

  pub load-IsLoaded :
      (starting : D) (account_id : String) (desk : Desk D)
      → IsLoaded starting (rows_in desk account_id) (load dec starting account_id desk).balances
  unfolding load
  load-IsLoaded starting account_id desk =
      seeded-IsLoaded starting (lookup account_id desk.balances)

  seeded-IsTable :
      (starting : D) (found : Option (Dict (Balance D)))
      → IsTable (rows_of dec found)
      → IsTable (seeded dec starting found)
  unfolding seeded lookup
  seeded-IsTable starting none h = ((refl, tt), (refl, tt))
  seeded-IsTable starting (some []) h = ((refl, tt), (refl, tt))
  seeded-IsTable starting (some (b ∷ rows)) h = h

  pub load-IsTable :
      (starting : D) (account_id : String) (desk : Desk D)
      → IsTable (rows_in desk account_id)
      → IsTable (load dec starting account_id desk).balances
  unfolding load
  load-IsTable starting account_id desk h =
      seeded-IsTable starting (lookup account_id desk.balances) h

  -- the balance that a save writes, or else the stored one
  abbrev pub or_stored : Option (Balance D) → Option (Balance D) → Option (Balance D)
  or_stored none stored = stored
  or_stored (some bal) stored = some bal

  lookup-upsert :
      (asset : String) (balances rows : Dict (Balance D))
      → HasUniqueKeys balances
      → lookup asset (upsert dec balances rows)
        ≡ or_stored (lookup asset balances) (lookup asset rows)
  unfolding upsert lookup
  lookup-upsert asset [] rows h = refl
  lookup-upsert asset ((k, b) ∷ rest) rows h = ground (
    arith,
    h.0,
    eq_iff k asset,
    lookup-insert k asset b rows,
    lookup-upsert asset rest (insert k b rows) h.1,
  )

  -- After a save each balance of the ledger is stored, what else was stored for the account is still
  -- there, and so is all that was stored for the other accounts.
  abbrev pub IsSaved : String → Dict (Balance D) → Desk D → Desk D → Type 0
  IsSaved account_id balances desk desk' =
      ((asset : String)
        → lookup asset (rows_in desk' account_id)
          ≡ or_stored (lookup asset balances) (lookup asset (rows_in desk account_id)))
      × ((other : String)
          → other ≢ account_id
          → lookup other desk'.balances ≡ lookup other desk.balances)

  pub save-IsSaved :
      (account_id : String) (ledger : PaperLedger D) (desk : Desk D)
      → HasUniqueKeys ledger.balances
      → IsSaved account_id ledger.balances desk (save dec account_id ledger desk)
  unfolding save
  save-IsSaved account_id ledger desk unique =
      let rows = upsert dec ledger.balances (rows_in desk account_id) in
      (
        λ asset.
            rw (lookup-insert_self account_id rows desk.balances)
              (lookup-upsert asset ledger.balances (rows_in desk account_id) unique),
        λ other apart. ground (
          arith,
          apart,
          eq_iff account_id other,
          lookup-insert account_id other rows desk.balances,
        ),
      )
