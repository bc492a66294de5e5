-- ===== src/Portfolio.antt =====
-- `PortfolioService.aggregate_balances` of app/services/portfolio_service.py. What an account's
-- adapter answers, or the exception that it ends in, is an argument.
pub mod Totals
mod Tests
use multi_platform_crypto_tr.Base.{String, Option, none, some, List, [], ◌∷◌}
use multi_platform_crypto_tr.Base.Dict.{Dict, lookup, insert}
use multi_platform_crypto_tr.Base.Result.{Result, ok, err}
use multi_platform_crypto_tr.Decimal.{Decimal}
use multi_platform_crypto_tr.Exceptions.{AppError}
use multi_platform_crypto_tr.Accounts.{ExchangeAccount, list_accounts}
use multi_platform_crypto_tr.Exchange.Models.{Balance}

module _ (dec : Decimal) where
  open dec use {D, d0, add}

  -- `totals[asset]` of the `defaultdict`
  abbrev pub total_or_zero : Option (D × D) → D × D
  total_or_zero none = (d0, d0)
  total_or_zero (some t) = t

  unfoldable pub add_balance : Balance D → Dict (D × D) → Dict (D × D)
  add_balance bal totals =
      let (free, used) = total_or_zero (lookup bal.asset totals) in
      insert bal.asset (add free bal.free, add used bal.used) totals

  -- the inner loop
  unfoldable pub add_balances : List (Balance D) → Dict (D × D) → Dict (D × D)
  add_balances [] totals = totals
  add_balances (bal ∷ balances) totals = add_balances balances (add_balance bal totals)

  -- the body of the loop over the accounts: an account that raises is passed over
  abbrev pub add_answer : Result AppError (List (Balance D)) → Dict (D × D) → Dict (D × D)
  add_answer (err e) totals = totals
  add_answer (ok balances) totals = add_balances balances totals

  unfoldable pub add_accounts :
      (ExchangeAccount → Result AppError (List (Balance D)))
      → List ExchangeAccount
      → Dict (D × D)
      → Dict (D × D)
  add_accounts fetch_balance [] totals = totals
  add_accounts fetch_balance (account ∷ accounts) totals =
      add_accounts fetch_balance accounts (add_answer (fetch_balance account) totals)

  -- the comprehension over the totals
  unfoldable pub as_balances : Dict (D × D) → Dict (Balance D)
  as_balances [] = []
  as_balances ((asset, (free, used)) ∷ totals) =
      (asset, record { asset = asset; free = free; used = used }) ∷ as_balances totals

  unfoldable pub aggregate_balances :
      (ExchangeAccount → Result AppError (List (Balance D)))
      → String
      → Dict ExchangeAccount
      → Dict (Balance D)
  aggregate_balances fetch_balance user_id rows =
      as_balances (add_accounts fetch_balance (list_accounts user_id rows) [])
