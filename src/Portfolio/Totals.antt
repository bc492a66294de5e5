-- ===== src/Portfolio/Totals.antt =====
-- What the portfolio of a user shows for an asset.
use multi_platform_crypto_tr.Base.{
  ◌≡◌, ◌∙◌, refl, ap, sym, inl, inr, String, Option, none, some, List, [], ◌∷◌, ◌++◌, arith, eq_iff,
  str_eq, map, Bool-cases, if◌then◌else◌,
}
use multi_platform_crypto_tr.Base.Dict.{Dict, lookup, lookup-insert}
use multi_platform_crypto_tr.Base.Result.{Result, ok, err}
use multi_platform_crypto_tr.Decimal.{Decimal}
use multi_platform_crypto_tr.Exceptions.{AppError}
use multi_platform_crypto_tr.Accounts.{ExchangeAccount, list_accounts}
use multi_platform_crypto_tr.Exchange.Models.{Balance}
use multi_platform_crypto_tr.Api.ClientAddress.{is_empty}
use multi_platform_crypto_tr.Portfolio.{
  total_or_zero, add_balance, add_balances, add_answer, add_accounts, as_balances,
  aggregate_balances,
}

module _ (dec : Decimal) where
  open dec use {D, d0, add}

  abbrev pub healthy : Result AppError (List (Balance D)) → List (Balance D)
  healthy (err e) = []
  healthy (ok balances) = balances

  -- Every balance that some account answered, account by account.
  unfoldable pub answered :
      (ExchangeAccount → Result AppError (List (Balance D)))
      → List ExchangeAccount
      → List (Balance D)
  answered fetch_balance [] = []
  answered fetch_balance (a ∷ accounts) =
      healthy (fetch_balance a) ++ answered fetch_balance accounts

  -- Those of one asset.
  unfoldable pub of_asset : String → List (Balance D) → List (Balance D)
  of_asset asset [] = []
  of_asset asset (b ∷ bs) =
      let rest = of_asset asset bs in if str_eq b.asset asset then b ∷ rest else rest

  -- Sums from the left, as `+=` adds.
  abbrev pub sum_from : D → List D → D
  sum_from start [] = start
  sum_from start (d ∷ ds) = sum_from (add start d) ds

  abbrev free_of : Balance D → D
  free_of b = b.free

  abbrev used_of : Balance D → D
  used_of b = b.used

  abbrev named : String → Option (D × D) → Option (Balance D)
  named asset none = none
  named asset (some (free, used)) = some (record { asset = asset; free = free; used = used })

  abbrev summed : Option (D × D) → List (Balance D) → Option (D × D)
  summed before [] = before
  summed before (b ∷ bs) =
      let (free, used) = total_or_zero dec before in
      some (sum_from free (map free_of (b ∷ bs)), sum_from used (map used_of (b ∷ bs)))

  summed-step :
      (before : Option (D × D)) (b : Balance D) (bs : List (Balance D))
      → let (free, used) = total_or_zero dec before in
        summed (some (add free b.free, add used b.used)) bs ≡ summed before (b ∷ bs)
  summed-step before b [] = refl
  summed-step before b (c ∷ bs) = refl

  add_balances-append :
      (xs ys : List (Balance D)) (totals : Dict (D × D))
      → add_balances dec (xs ++ ys) totals ≡ add_balances dec ys (add_balances dec xs totals)
  unfolding add_balances
  add_balances-append [] ys totals = refl
  add_balances-append (x ∷ xs) ys totals = add_balances-append xs ys (add_balance dec x totals)

  named_sums :
      (asset : String) (bs : List (Balance D))
      → named asset (summed (lookup asset []) bs) ≡ (
          if is_empty bs
          then none
          else some (record {
            asset = asset;
            free = sum_from d0 (map free_of bs);
            used = sum_from d0 (map used_of bs);
          }))
  unfolding lookup
  named_sums asset [] = refl
  named_sums asset (b ∷ bs) = refl

  lookup-add_balances :
      (asset : String) (bs : List (Balance D)) (totals : Dict (D × D))
      → lookup asset (add_balances dec bs totals) ≡ summed (lookup asset totals) (of_asset asset bs)
  unfolding add_balances of_asset add_balance
  lookup-add_balances asset [] totals = refl
  lookup-add_balances asset (b ∷ bs) totals =
      let ih = lookup-add_balances asset bs (add_balance dec b totals) in
      let step =
        lookup-insert b.asset asset
          (
            add (total_or_zero dec (lookup b.asset totals)).0 b.free,
            add (total_or_zero dec (lookup b.asset totals)).1 b.used,
          )
          totals in
      let mine = of_asset asset bs in
      elim (Bool-cases (str_eq b.asset asset)) [
        | inl same ↦
            let moved = ap (λ k. lookup k totals) ((eq_iff b.asset asset).0 same) in
            let before = total_or_zero dec (lookup asset totals) in
            let now : lookup asset (add_balance dec b totals)
                ≡ some (add before.0 b.free, add before.1 b.used) =
              ground (arith, step, same, moved) in
            rw same (ih ∙ ap (λ o. summed o mine) now ∙ summed-step (lookup asset totals) b mine)
        | inr other ↦
            let now : lookup asset (add_balance dec b totals) ≡ lookup asset totals =
              ground (arith, step, other) in
            rw other (ih ∙ ap (λ o. summed o mine) now)
      ]

  add_answer-healthy :
      (r : Result AppError (List (Balance D))) (totals : Dict (D × D))
      → add_answer dec r totals ≡ add_balances dec (healthy r) totals
  unfolding add_balances
  add_answer-healthy (err e) totals = refl
  add_answer-healthy (ok balances) totals = refl

  add_accounts-answered :
      (fetch_balance : ExchangeAccount → Result AppError (List (Balance D)))
      (accounts : List ExchangeAccount) (totals : Dict (D × D))
      → add_accounts dec fetch_balance accounts totals
        ≡ add_balances dec (answered fetch_balance accounts) totals
  unfolding add_accounts answered
  add_accounts-answered fetch_balance [] totals = unfold add_balances in refl
  add_accounts-answered fetch_balance (a ∷ accounts) totals =
      add_accounts-answered fetch_balance accounts (add_answer dec (fetch_balance a) totals)
      ∙ ap (add_balances dec (answered fetch_balance accounts))
          (add_answer-healthy (fetch_balance a) totals)
      ∙ sym
          (add_balances-append (healthy (fetch_balance a)) (answered fetch_balance accounts) totals)

  lookup-as_balances :
      (asset : String) (totals : Dict (D × D))
      → lookup asset (as_balances dec totals) ≡ named asset (lookup asset totals)
  unfolding as_balances lookup
  lookup-as_balances asset [] = refl
  lookup-as_balances asset ((k, (free, used)) ∷ totals) =
      ground (arith, eq_iff k asset, lookup-as_balances asset totals)

  -- What the portfolio shows for an asset: nothing if no account of the user answered a balance of it,
  -- and otherwise the sums of the free and of the used amounts of all balances that were answered for
  -- it, in the order of the accounts. An account that raises adds nothing and hinders no other.
  pub aggregate_balances_exact :
      (fetch_balance : ExchangeAccount → Result AppError (List (Balance D))) (user_id : String)
      (rows : Dict ExchangeAccount) (asset : String)
      → let mine = of_asset asset (answered fetch_balance (list_accounts user_id rows)) in
        lookup asset (aggregate_balances dec fetch_balance user_id rows) ≡ (
          if is_empty mine
          then none
          else some (record {
            asset = asset;
            free = sum_from d0 (map free_of mine);
            used = sum_from d0 (map used_of mine);
          }))
  unfolding aggregate_balances
  aggregate_balances_exact fetch_balance user_id rows asset =
      let accounts = list_accounts user_id rows in
      let all = answered fetch_balance accounts in
      lookup-as_balances asset (add_accounts dec fetch_balance accounts [])
      ∙ ap (λ t. named asset (lookup asset t)) (add_accounts-answered fetch_balance accounts [])
      ∙ ap (named asset) (lookup-add_balances asset all [])
      ∙ named_sums asset (of_asset asset all)
