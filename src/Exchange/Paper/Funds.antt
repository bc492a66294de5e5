-- ===== src/Exchange/Paper/Funds.antt =====
-- The balances of `PaperAdapter`, app/exchange/paper.py: the helpers that move funds, and what a
-- resting order holds reserved.
use multi_platform_crypto_tr.Base.{String, Option, none, some, if◌then◌else◌}
use multi_platform_crypto_tr.Base.Dict.{Dict, lookup, insert}
use multi_platform_crypto_tr.Base.Result.{Result, ok, err}
use multi_platform_crypto_tr.Decimal.{Decimal, lt, dmin}
use multi_platform_crypto_tr.Exceptions.{AppError, insufficient_balance}
use multi_platform_crypto_tr.Exchange.Models.{Balance, Order}
use multi_platform_crypto_tr.Exchange.Symbol.{split_symbol}
use multi_platform_crypto_tr.Trading.{OrderSide, buy, sell}

module _ (dec : Decimal) where
  open dec use {D, d0, add, sub, mul, le}

  -- What the constructor keeps: `_quote` and `_fee_rate`.
  pub record PaperAdapter : Type 0 where
    pub quote : String
    pub fee_rate : D

  -- `self._balances.get(asset, Balance(asset, Decimal(0), Decimal(0)))`
  unfoldable pub balance_of : String → Dict (Balance D) → Balance D
  balance_of asset balances = elim (lookup asset balances) [
    | none ↦ record { asset = asset; free = d0; used = d0 }
    | some bal ↦ bal
  ]

  unfoldable pub credit : String → D → Dict (Balance D) → Dict (Balance D)
  credit asset amount balances =
      let bal = balance_of asset balances in
      insert asset (record { asset = asset; free = add bal.free amount; used = bal.used }) balances

  unfoldable pub debit : String → D → Dict (Balance D) → Result AppError (Dict (Balance D))
  debit asset amount balances =
      let bal = balance_of asset balances in
      if lt dec bal.free amount
      then err insufficient_balance
      else ok (
          insert asset (record { asset = asset; free = sub bal.free amount; used = bal.used })
            balances)

  unfoldable pub reserve : String → D → Dict (Balance D) → Result AppError (Dict (Balance D))
  reserve asset amount balances =
      let bal = balance_of asset balances in
      if lt dec bal.free amount
      then err insufficient_balance
      else ok (
          insert asset
            (record { asset = asset; free = sub bal.free amount; used = add bal.used amount })
            balances)

  unfoldable pub release : String → D → Dict (Balance D) → Dict (Balance D)
  release asset amount balances =
      let bal = balance_of asset balances in
      let released = dmin dec amount bal.used in
      insert asset
        (record { asset = asset; free = add bal.free released; used = sub bal.used released })
        balances

  reserved_by : OrderSide → String × String → D → D → D → String × D
  reserved_by buy (base, quote) amount price fee_rate =
      let cost = mul amount price in (quote, add cost (mul cost fee_rate))
  reserved_by sell (base, quote) amount price fee_rate = (base, amount)

  -- `order.price or Decimal(0)`: a price of zero is falsy, and is replaced by zero
  abbrev pub price_or_zero : Option D → D
  price_or_zero none = d0
  price_or_zero (some p) = p

  -- `_reservation`: the asset and the amount that a resting order holds
  unfoldable pub reservation : PaperAdapter → Order D → String × D
  unfolding reserved_by
  reservation a order =
      reserved_by order.side (split_symbol order.symbol a.quote) order.amount
        (price_or_zero order.price) a.fee_rate
