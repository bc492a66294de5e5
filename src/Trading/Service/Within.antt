-- ===== src/Trading/Service/Within.antt =====
-- What the risk check asks of an order, in numbers.
use multi_platform_crypto_tr.Base.{
  ℕ, ◌≡◌, ◌==◌, refl, sym, Option, none, some, arith, if◌then◌else◌,
}
use multi_platform_crypto_tr.Base.Dict.{lookup}
use multi_platform_crypto_tr.Base.Result.{Result, ok, err}
use multi_platform_crypto_tr.Decimal.{Decimal, IsRounding, lt}
use multi_platform_crypto_tr.Exceptions.{AppError}
use multi_platform_crypto_tr.Exchange.Models.{Ticker, OrderRequest, PaperLedger}
use multi_platform_crypto_tr.Exchange.Symbol.{split_symbol}
use multi_platform_crypto_tr.Trading.Risk.{RiskLimits}
use multi_platform_crypto_tr.Trading.Risk.Limits.{IsWithin, check_order_exact}
use multi_platform_crypto_tr.Trading.Service.Store.Saved.{IsTable}
use multi_platform_crypto_tr.Trading.Service.Equity.{total_or, equity_or}
use multi_platform_crypto_tr.Trading.Service.{leverage_of, reference_price, checked, quote_equity}

module _ (dec : Decimal) where
  open dec use {D, d1, mul}

  -- The price of the order, or the last price of the ticker for an order without one.
  abbrev pub IsReference : Option D → Result AppError (Ticker D) → D → Type 0
  IsReference (some price) quoted p = p ≡ price
  IsReference none (ok ticker) p = p ≡ ticker.last
  IsReference none (err e) p = ⊥

  pub price_is :
      (price : Option D) (quoted : Result AppError (Ticker D)) (p : D)
      → reference_price dec price quoted ≡ ok p
      → IsReference price quoted p
  price_is (some price) quoted p e = ground (arith, e)
  price_is none (ok ticker) p e = ground (arith, e)
  price_is none (err x) p e = ground (arith, e)

  -- A leverage of none and one of 0 count as 1.
  abbrev pub lever : (ℕ → D) → Option ℕ → D
  lever of_ℕ leverage = elim leverage [ none ↦ d1 | some n ↦ if n == 0 then d1 else of_ℕ n ]

  leverage_is :
      (of_ℕ : ℕ → D) (leverage : Option ℕ) → leverage_of dec of_ℕ leverage ≡ lever of_ℕ leverage
  leverage_is of_ℕ none = refl
  leverage_is of_ℕ (some n) = refl

  -- What the risk limits ask of this order, at this price and with these balances: the notional is
  -- amount times price, and the equity the total of the quote asset, or the largest notional if the
  -- account has none of it.
  abbrev pub Passes : RiskLimits dec → (ℕ → D) → OrderRequest D → D → PaperLedger D → Type 0
  Passes limits of_ℕ request price ledger =
      let notional = mul request.amount price in
      IsWithin dec limits notional
        (total_or dec (mul notional limits.max_leverage)
          (lookup (split_symbol request.symbol "USDT").1 ledger.balances))
        (lever of_ℕ request.leverage) none

  pub checked-Passes :
      (laws : IsRounding dec) (limits : RiskLimits dec) (of_ℕ : ℕ → D) (request : OrderRequest D)
      (price : D) (ledger : PaperLedger D)
      → IsTable dec ledger.balances
      → checked dec limits of_ℕ request price ledger ≡ ok tt
      → Passes limits of_ℕ request price ledger
  unfolding checked
  checked-Passes laws limits of_ℕ request price ledger h passed =
      let notional = mul request.amount price in
      let equity = quote_equity dec request.symbol ledger in
      let spare = mul notional limits.max_leverage in
      rw
        (
          sym (equity_or dec laws request.symbol ledger spare h),
          sym (leverage_is of_ℕ request.leverage),
        )
        ((check_order_exact dec limits notional (if lt dec dec.d0 equity then equity else spare)
            (leverage_of dec of_ℕ request.leverage) none).0.0
          passed)
