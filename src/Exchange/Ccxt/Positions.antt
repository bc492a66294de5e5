-- ===== src/Exchange/Ccxt/Positions.antt =====
-- The loops of `fetch_positions` and `fetch_balance` of app/exchange/ccxt_adapter.py over what the
-- exchange answered.
use multi_platform_crypto_tr.Base.{
  ℕ, String, Bool, false, ◌||◌, Option, none, some, List, [], ◌∷◌, ◌++◌, str_eq, if◌then◌else◌,
}
use multi_platform_crypto_tr.Base.Result.{Result, ok, err, map_ok, and_then}
use multi_platform_crypto_tr.Decimal.{Decimal, lt, deq}
use multi_platform_crypto_tr.Exceptions.{AppError, unhandled}
use multi_platform_crypto_tr.Exchange.Models.{Balance}
use multi_platform_crypto_tr.Exchange.Ccxt.Response.{
  Json, null, text, dict, Fields, end, field, Conversions, get, as_dict, truthy, optional_decimal,
  decimal_or_zero,
}

pub data PositionSide : Type 0 where
  long short both : PositionSide

pub data MarginMode : Type 0 where
  isolated cross : MarginMode

pub record Position (N : Type 0) (D : Type 0) : Type 0 where
  pub symbol : Json N
  pub side : PositionSide
  pub contracts : D
  pub entry_price : D
  pub mark_price : Option D
  pub leverage : ℕ
  pub margin_mode : MarginMode
  pub unrealized_pnl : D
  pub liquidation_price : Option D

module _ {N : Type 0} where
  -- `PositionSide(value)`
  unfoldable pub position_side : Json N → Result AppError PositionSide
  position_side (text s) =
      if str_eq s "long"
      then ok long
      else if str_eq s "short"
      then ok short
      else if str_eq s "both"
      then ok both
      else err unhandled
  position_side _ = err unhandled

  -- `MarginMode(value)`
  unfoldable pub margin_mode : Json N → Result AppError MarginMode
  margin_mode (text s) =
      if str_eq s "isolated"
      then ok isolated
      else if str_eq s "cross"
      then ok cross
      else err unhandled
  margin_mode _ = err unhandled

  -- `key in d`
  unfoldable pub has_key : String → Fields N → Bool
  has_key key end = false
  has_key key (field k v d) = str_eq k key || has_key key d

  abbrev pub keys_after : Fields N → Fields N → List String
  keys_after seen end = []
  keys_after seen (field k v d) =
      let rest = keys_after seen d in if has_key k seen then rest else k ∷ rest

  -- `set(free) | set(used)`; the order of a set is not determined, and this is one
  unfoldable pub assets_of : Fields N → Fields N → List String
  assets_of free used = keys_after end free ++ keys_after free used

module _ {N : Type 0} (dec : Decimal) (cv : Conversions N dec.D) where
  open dec use {D, d0, add}

  -- `value or default`
  abbrev or_else : Json N → Json N → Json N
  or_else value default = if truthy dec cv value then value else default

  -- `int(value or 1)`
  abbrev leverage_of : Json N → Result AppError ℕ
  leverage_of value =
      if truthy dec cv value
      then (elim (cv.to_int value) [ none ↦ err unhandled | some n ↦ ok n ])
      else ok 1

  unfoldable pub position_of : D → Fields N → Result AppError (Position N D)
  position_of contracts p =
      and_then (position_side (or_else (get "side" null p) (text "long"))) (λ side.
        and_then (decimal_or_zero dec cv (get "entryPrice" null p)) (λ entry_price.
          and_then (optional_decimal dec cv (get "markPrice" null p)) (λ mark_price.
            and_then (leverage_of (get "leverage" null p)) (λ leverage.
              and_then (margin_mode (or_else (get "marginMode" null p) (text "cross"))) (λ mode.
                and_then (decimal_or_zero dec cv (get "unrealizedPnl" null p)) (λ unrealized_pnl.
                  map_ok
                    (λ liquidation_price. record {
                      symbol = get "symbol" (text "") p;
                      side = side;
                      contracts = contracts;
                      entry_price = entry_price;
                      mark_price = mark_price;
                      leverage = leverage;
                      margin_mode = mode;
                      unrealized_pnl = unrealized_pnl;
                      liquidation_price = liquidation_price;
                    })
                    (optional_decimal dec cv (get "liquidationPrice" null p))))))))

  unfoldable pub positions_of : List (Fields N) → Result AppError (List (Position N D))
  positions_of [] = ok []
  positions_of (p ∷ raw) =
      let rest = positions_of raw in
      and_then (decimal_or_zero dec cv (get "contracts" null p)) (λ contracts.
        if deq dec contracts d0
        then rest
        else and_then (position_of contracts p) (λ x. map_ok (λ xs. x ∷ xs) rest))

  abbrev pub total_of : Balance D → D
  total_of b = add b.free b.used

  abbrev pub balance_in : Fields N → Fields N → String → Result AppError (Balance D)
  balance_in free used asset = and_then (decimal_or_zero dec cv (get asset null free)) (λ f.
      map_ok (λ u. record { asset = asset; free = f; used = u })
        (decimal_or_zero dec cv (get asset null used)))

  -- the two comprehensions, for the assets that are left
  unfoldable pub positive_balances :
      Fields N → Fields N → List String → Result AppError (List (Balance D))
  positive_balances free used [] = ok []
  positive_balances free used (asset ∷ assets) =
      let rest = positive_balances free used assets in
      and_then (balance_in free used asset)
        (λ b. map_ok (λ bs. if lt dec d0 (total_of b) then b ∷ bs else bs) rest)

  -- `fetch_balance`, once the exchange has answered
  unfoldable pub balances_of : Fields N → Result AppError (List (Balance D))
  balances_of raw = and_then (as_dict (get "free" (dict end) raw)) (λ free.
      and_then (as_dict (get "used" (dict end) raw))
        (λ used. positive_balances free used (assets_of free used)))
