-- ===== src/Exchange/Ccxt/Unified.antt =====
-- An order in the form that ccxt documents, read back.
use multi_platform_crypto_tr.Base.{
  ℕ, ◌≡◌, refl, inl, inr, String, true, false, Option, none, some, List, [], ◌∷◌, arith, Bool-cases,
  str_eq, All, map,
}
use multi_platform_crypto_tr.Base.Dict.{lookup}
use multi_platform_crypto_tr.Base.Result.{ok}
use multi_platform_crypto_tr.Decimal.{Decimal, deq, IsRounding}
use multi_platform_crypto_tr.Trading.{
  OrderSide, buy, sell, OrderType, OrderStatus, pending, opened, partially_filled, filled, canceled,
  rejected, expired,
}
use multi_platform_crypto_tr.Exchange.Ccxt.{
  Client, type_value, side_value, fetch_order, fetch_open_orders, parse_all, symbol_or_empty,
}
use multi_platform_crypto_tr.Exchange.Ccxt.Response.{
  Json, null, text, number, dict, Fields, end, field, Conversions, get, optional_decimal,
  decimal_or_zero,
}
use multi_platform_crypto_tr.Exchange.Ccxt.Guarded.{answers, call_exchange}
use multi_platform_crypto_tr.Exchange.Ccxt.Orders.{
  ExchangeOrder, status_map, type_map, mapped, side_of, fee_of, parse_order,
}
use multi_platform_crypto_tr.Resilience.Breaker.{CircuitBreaker, can_attempt, call}

-- The status that ccxt documents; it has none for the two others.
abbrev pub status_text : OrderStatus → String
status_text opened = "open"
status_text filled = "closed"
status_text canceled = "canceled"
status_text expired = "expired"
status_text rejected = "rejected"
status_text pending = ""
status_text partially_filled = ""

abbrev pub IsReported : OrderStatus → Type 0
IsReported s = str_eq (status_text s) "" ≡ false

-- `str` of a text is the text.
abbrev pub KeepsText : {N D : Type 0} → Conversions N D → Type 0
KeepsText cv = (s : String) → cv.to_str (text s) ≡ s

-- This decimal survives the way to a float, its text and back, as one of at most 15 digits does.
abbrev pub Survives : {N D : Type 0} → Conversions N D → D → Type 0
Survives cv d = cv.to_decimal (cv.to_str (number (cv.to_float d))) ≡ some d

abbrev pub SurvivesIfAny : {N D : Type 0} → Conversions N D → Option D → Type 0
SurvivesIfAny cv none = Unit
SurvivesIfAny cv (some d) = Survives cv d

-- The decimals of this order survive.
abbrev pub IsExact : {N D : Type 0} → Conversions N D → ExchangeOrder N D → Type 0
IsExact cv o =
    Survives cv o.amount
    × Survives cv o.filled
    × Survives cv o.fee
    × SurvivesIfAny cv o.price
    × SurvivesIfAny cv o.average

module _ {N : Type 0} (dec : Decimal) (cv : Conversions N dec.D) where
  open dec use {D}

  abbrev optional_number : Option D → Json N
  optional_number none = null
  optional_number (some d) = number (cv.to_float d)

  -- The answer of ccxt for an order.
  abbrev pub unified : ExchangeOrder N D → Fields N
  unified o = field "id" (text o.id) (
      field "clientOrderId" o.client_order_id (
        field "timestamp" o.timestamp (
          field "symbol" o.symbol (
            field "type" (text (type_value o.type)) (
              field "side" (text (side_value o.side)) (
                field "price" (optional_number o.price) (
                  field "average" (optional_number o.average) (
                    field "amount" (number (cv.to_float o.amount)) (
                      field "filled" (number (cv.to_float o.filled)) (
                        field "status" (text (status_text o.status)) (
                          field "fee" (dict (field "cost" (number (cv.to_float o.fee)) end))
                            end)))))))))))

  module _ (laws : IsRounding dec) (keeps : KeepsText cv) where
    number-decimal_or_zero :
        (d : D) → Survives cv d → decimal_or_zero dec cv (number (cv.to_float d)) ≡ ok d
    unfolding decimal_or_zero optional_decimal
    number-decimal_or_zero d survives = rw survives (elim (Bool-cases (deq dec d dec.d0)) [
      | inl zero ↦ ground (arith, zero, laws.le_antisym d dec.d0)
      | inr other ↦ ground (arith, other)
    ])

    number-optional_decimal :
        (o : Option D) → SurvivesIfAny cv o → optional_decimal dec cv (optional_number o) ≡ ok o
    unfolding optional_decimal
    number-optional_decimal none survives = refl
    number-optional_decimal (some d) survives = rw survives refl

    read_status :
        (s : OrderStatus)
        → IsReported s
        → mapped {N = N} status_map opened (text (status_text s)) ≡ ok s
    unfolding mapped lookup
    read_status pending h = ground (arith, h)
    read_status partially_filled h = ground (arith, h)
    read_status opened h = refl
    read_status filled h = refl
    read_status canceled h = refl
    read_status rejected h = refl
    read_status expired h = refl

    read_type :
        (t : OrderType) → mapped {N = N} type_map OrderType.limit (text (type_value t)) ≡ ok t
    unfolding mapped lookup
    read_type OrderType.market = refl
    read_type OrderType.limit = refl
    read_type OrderType.stop = refl
    read_type OrderType.stop_limit = refl
    read_type OrderType.take_profit = refl
    read_type OrderType.trailing_stop = refl

    read_side : (s : OrderSide) → side_of {N = N} (text (side_value s)) ≡ ok s
    unfolding side_of
    read_side buy = refl
    read_side sell = refl

    parse_order-unified :
        (o : ExchangeOrder N D) (symbol : Json N)
        → IsReported o.status
        → IsExact cv o
        → parse_order dec cv (unified o) symbol ≡ ok o
    unfolding parse_order get fee_of
    parse_order-unified o symbol h (whole, part, cost, price, average) = ground (
      arith,
      number-decimal_or_zero o.fee cost,
      number-decimal_or_zero o.amount whole,
      number-decimal_or_zero o.filled part,
      number-optional_decimal o.price price,
      number-optional_decimal o.average average,
      read_status o.status h,
      read_type o.type,
      read_side o.side,
      keeps o.id,
    )

    parse_all-unified :
        (os : List (ExchangeOrder N D)) (symbol : Option String)
        → All (λ o. IsReported o.status) os
        → All (IsExact cv) os
        → parse_all dec cv symbol (map (unified) os) ≡ ok os
    unfolding parse_all
    parse_all-unified [] symbol h exact = refl
    parse_all-unified (o ∷ os) symbol (here, later) (exact, others) = ground (
      arith,
      parse_order-unified o (get "symbol" (text (symbol_or_empty symbol)) (unified o)) here exact,
      parse_all-unified os symbol later others,
    )

    -- Orders that the exchange answers as ccxt documents it, with a status that ccxt has, are returned
    -- as they are: by `fetch_order` one, by `fetch_open_orders` all of them in their order. This needs
    -- an attempt that the breaker lets through, that `str` of a text is the text, and that the
    -- amounts, prices and fees of these orders survive the way through a float and its text.
    pub orders_round_trip :
        (client : Client N) (begun ended : ℕ) (breaker : CircuitBreaker) (order_id symbol : String)
        (wanted : Option String) (o : ExchangeOrder N D) (os : List (ExchangeOrder N D))
        → (can_attempt begun breaker).0 ≡ true
        → IsReported o.status
        → All (λ x. IsReported x.status) os
        → IsExact cv o
        → All (IsExact cv) os
        → client.fetch_order order_id symbol ≡ answers (unified o)
        → client.fetch_open_orders wanted ≡ answers (map unified os)
        → ((fetch_order dec cv client begun ended order_id symbol breaker).0 ≡ ok o)
          × ((fetch_open_orders dec cv client begun ended wanted breaker).0 ≡ ok os)
    unfolding fetch_order fetch_open_orders call_exchange call
    orders_round_trip client begun ended breaker order_id symbol wanted o os admitted one all exact
          each found listed =
        (
          rw (found, admitted) (parse_order-unified o (text symbol) one exact),
          rw (listed, admitted) (parse_all-unified os wanted all each),
        )
