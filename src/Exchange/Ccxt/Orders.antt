-- ===== src/Exchange/Ccxt/Orders.antt =====
-- `_parse_order` and `_normalise_type` of app/exchange/ccxt_adapter.py.
use multi_platform_crypto_tr.Base.{String, Option, none, some, [], ◌∷◌, str_eq, if◌then◌else◌}
use multi_platform_crypto_tr.Base.Dict.{Dict, lookup}
use multi_platform_crypto_tr.Base.Result.{Result, ok, err, map_ok, and_then}
use multi_platform_crypto_tr.Decimal.{Decimal}
use multi_platform_crypto_tr.Exceptions.{AppError, unhandled}
use multi_platform_crypto_tr.Trading.{
  OrderSide, buy, sell, OrderType, market, limit, stop, stop_limit, take_profit, trailing_stop,
  OrderStatus, opened, filled, canceled, expired, rejected,
}
use multi_platform_crypto_tr.Exchange.Ccxt.Response.{
  Json, null, text, number, flag, dict, Fields, Conversions, get, as_dict, truthy, optional_decimal,
  decimal_or_zero,
}

-- The `Order` that the adapter returns, which is never a paper order. The fields that the code does
-- not convert hold what the exchange sent.
pub record ExchangeOrder (N : Type 0) (D : Type 0) : Type 0 where
  pub id : String
  pub symbol : Json N
  pub side : OrderSide
  pub type : OrderType
  pub status : OrderStatus
  pub amount : D
  pub filled : D
  pub price : Option D
  pub average : Option D
  pub timestamp : Json N
  pub client_order_id : Json N
  pub fee : D

-- `_STATUS_MAP`
abbrev pub status_map : Dict OrderStatus
status_map =
    ("open", opened)
    ∷ ("closed", filled)
    ∷ ("canceled", canceled)
    ∷ ("cancelled", canceled)
    ∷ ("expired", expired)
    ∷ ("rejected", rejected)
    ∷ []

abbrev pub type_map : Dict OrderType
type_map =
    ("market", market)
    ∷ ("limit", limit)
    ∷ ("stop", stop)
    ∷ ("stop_market", stop)
    ∷ ("stop_limit", stop_limit)
    ∷ ("take_profit", take_profit)
    ∷ ("trailing_stop", trailing_stop)
    ∷ []

abbrev pub or_default {ℓ} : {A : Type ℓ} → A → Option A → A
or_default a none = a
or_default a (some b) = b

module _ {N : Type 0} where
  -- `mapping.get(value, default)`: a dict is not hashable, a `TypeError`; what is no text is no key
  unfoldable pub mapped : {A : Type 0} → Dict A → A → Json N → Result AppError A
  mapped mapping default null = ok default
  mapped mapping default (text s) = ok (or_default default (lookup s mapping))
  mapped mapping default (flag b) = ok default
  mapped mapping default (number n) = ok default
  mapped mapping default (dict d) = err unhandled

  -- `OrderSide(value)`, a `ValueError` for anything but the two values
  unfoldable pub side_of : Json N → Result AppError OrderSide
  side_of (text s) =
      if str_eq s "buy" then ok buy else if str_eq s "sell" then ok sell else err unhandled
  side_of _ = err unhandled

module _ {N : Type 0} (dec : Decimal) (cv : Conversions N dec.D) where
  open dec use {D, d0}

  abbrev pub cost_or_zero : Json N → Result AppError D
  cost_or_zero null = ok d0
  cost_or_zero v = decimal_or_zero dec cv v

  -- `if raw.get("fee") and raw["fee"].get("cost") is not None: ...`
  unfoldable pub fee_of : Json N → Result AppError D
  fee_of fee =
      if truthy dec cv fee
      then and_then (as_dict fee) (λ d. cost_or_zero (get "cost" null d))
      else ok d0

  unfoldable pub parse_order : Fields N → Json N → Result AppError (ExchangeOrder N D)
  parse_order raw symbol = and_then (fee_of (get "fee" null raw)) (λ fee.
      and_then (side_of (get "side" (text "buy") raw)) (λ side.
        and_then (mapped type_map limit (get "type" (text "limit") raw)) (λ type.
          and_then (mapped status_map opened (get "status" (text "") raw)) (λ status.
            and_then (decimal_or_zero dec cv (get "amount" null raw)) (λ amount.
              and_then (decimal_or_zero dec cv (get "filled" null raw)) (λ filled.
                and_then (optional_decimal dec cv (get "price" null raw)) (λ price.
                  map_ok
                    (λ average. record {
                      id = cv.to_str (get "id" (text "") raw);
                      symbol = get "symbol" symbol raw;
                      side = side;
                      type = type;
                      status = status;
                      amount = amount;
                      filled = filled;
                      price = price;
                      average = average;
                      timestamp = get "timestamp" null raw;
                      client_order_id = get "clientOrderId" null raw;
                      fee = fee;
                    })
                    (optional_decimal dec cv (get "average" null raw)))))))))
