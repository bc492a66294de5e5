-- ===== src/Exchange/Paper/Prices.antt =====
-- The price at which a paper order fills, and when it rests.
use multi_platform_crypto_tr.Base.{◌≡◌, ◌⊎◌, Bool, true, not, ◌||◌, is_none, some, arith}
use multi_platform_crypto_tr.Decimal.{Decimal, IsRounding}
use multi_platform_crypto_tr.Exchange.Models.{Ticker, OrderRequest}
use multi_platform_crypto_tr.Exchange.Paper.Fill.{resolve_fill_price}
use multi_platform_crypto_tr.Trading.{OrderSide, buy, sell, limit}

module _ (dec : Decimal) where
  open dec use {D, le}

  -- The limit is at least as good as the last price.
  abbrev pub is_marketable : OrderSide → D → D → Bool
  is_marketable buy price last = le last price
  is_marketable sell price last = le price last

  -- At least as good for this side as `reference`.
  abbrev pub NoWorse : OrderSide → D → D → Type 0
  NoWorse buy p reference = le p reference ≡ true
  NoWorse sell p reference = le reference p ≡ true

  -- A limit order with a price rests exactly if it is post-only or its limit is not marketable.
  pub limit_rests_exactly :
      (request : OrderRequest D) (ticker : Ticker D) (price : D)
      → request.type ≡ limit
      → request.price ≡ some price
      → is_none (resolve_fill_price dec request ticker)
        ≡ (request.post_only || not (is_marketable request.side price ticker.last))
  unfolding resolve_fill_price
  limit_rests_exactly request ticker price t e = ground arith

module _ (dec : Decimal) (laws : IsRounding dec) where
  open dec use {D, le}

  -- If a limit order with a price fills, the fill price is no worse for its side than the limit and
  -- than the last price, and is one of the two.
  pub limit_fills-NoWorse :
      (request : OrderRequest D) (ticker : Ticker D) (price p : D)
      → request.type ≡ limit
      → request.price ≡ some price
      → resolve_fill_price dec request ticker ≡ some p
      → NoWorse dec request.side p price
        × NoWorse dec request.side p ticker.last
        × ((p ≡ price) ⊎ (p ≡ ticker.last))
  unfolding resolve_fill_price
  limit_fills-NoWorse request ticker price p t e h = ground (
    arith,
    laws.le_refl price,
    laws.le_refl ticker.last,
    laws.le_total price ticker.last,
    laws.le_total ticker.last price,
  )
