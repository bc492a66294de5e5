-- ===== src/Trading/Service/Equity.antt =====
-- The equity that the risk check of an order takes an account to have.
use multi_platform_crypto_tr.Base.{
  String, ◌≡◌, refl, Option, none, some, [], ◌∷◌, arith, eq_iff, if◌then◌else◌,
}
use multi_platform_crypto_tr.Base.Dict.{Dict, lookup}
use multi_platform_crypto_tr.Decimal.{Decimal, IsRounding, lt}
use multi_platform_crypto_tr.Exchange.Models.{Balance, PaperLedger}
use multi_platform_crypto_tr.Exchange.Paper.{fetch_balance, held}
use multi_platform_crypto_tr.Exchange.Symbol.{split_symbol}
use multi_platform_crypto_tr.Trading.Service.{equity_in, quote_equity}
use multi_platform_crypto_tr.Trading.Service.Store.Saved.{IsTable}

module _ (dec : Decimal) where
  open dec use {D, d0, add}

  -- free and reserved together if that is positive, and otherwise `fallback`
  abbrev pub total_or : D → Option (Balance D) → D
  total_or fallback none = fallback
  total_or fallback (some bal) =
      if lt dec d0 (add bal.free bal.used) then add bal.free bal.used else fallback

  equity_in-held :
      (quote : String) (balances : Dict (Balance D))
      → IsTable dec balances
      → equity_in dec quote (held dec balances) ≡ total_or d0 (lookup quote balances)
  unfolding equity_in held lookup
  equity_in-held quote [] h = refl
  equity_in-held quote ((k, b) ∷ rest) ((new, unique), (name, names)) = ground (
    arith,
    new,
    name,
    eq_iff k quote,
    eq_iff b.asset quote,
    equity_in-held quote rest (unique, names),
  )

  -- The equity that the check is made with is the total of the quote asset, if that is positive.
  pub equity_or :
      (laws : IsRounding dec) (symbol : String) (ledger : PaperLedger D) (fallback : D)
      → IsTable dec ledger.balances
      → let equity = quote_equity dec symbol ledger in
        (if lt dec d0 equity then equity else fallback)
        ≡ total_or fallback (lookup (split_symbol symbol "USDT").1 ledger.balances)
  unfolding quote_equity fetch_balance
  equity_or laws symbol ledger fallback h =
      ground
        (arith, laws.le_refl d0, equity_in-held (split_symbol symbol "USDT").1 ledger.balances h)
