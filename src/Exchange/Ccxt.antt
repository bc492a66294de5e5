-- ===== src/Exchange/Ccxt.antt =====
-- `CcxtAdapter` of app/exchange/ccxt_adapter.py. What the exchange answers is an argument, the client,
-- and so are the times at which a call begins and ends. A method returns a result and the breaker of
-- the exchange.
pub mod Response
pub mod Guarded
pub mod Orders
pub mod Positions
pub mod Errors
pub mod Unified
pub mod Funds
mod Tests
use multi_platform_crypto_tr.Base.{
  ℕ, String, Bool, true, false, not, Option, none, some, List, [], ◌∷◌, str_eq, if◌then◌else◌,
}
use multi_platform_crypto_tr.Base.Result.{Result, ok, err, map_ok, and_then}
use multi_platform_crypto_tr.Decimal.{Decimal}
use multi_platform_crypto_tr.Exceptions.{AppError}
use multi_platform_crypto_tr.Trading.{
  OrderSide, buy, sell, OrderType, market, limit, stop, stop_limit, take_profit, trailing_stop,
  TimeInForce, gtc, ioc, fok,
}
use multi_platform_crypto_tr.Exchange.Models.{Balance, OrderRequest}
use multi_platform_crypto_tr.Exchange.Ccxt.Response.{
  Json, null, text, Fields, Conversions, get, set_field, optional_decimal, decimal_or_zero,
}
use multi_platform_crypto_tr.Exchange.Ccxt.Guarded.{Outcome, call_exchange}
use multi_platform_crypto_tr.Exchange.Ccxt.Orders.{ExchangeOrder, parse_order}
use multi_platform_crypto_tr.Exchange.Ccxt.Positions.{Position, positions_of, balances_of}
use multi_platform_crypto_tr.Resilience.Breaker.{CircuitBreaker}

abbrev pub side_value : OrderSide → String
side_value buy = "buy"
side_value sell = "sell"

abbrev pub type_value : OrderType → String
type_value market = "market"
type_value limit = "limit"
type_value stop = "stop"
type_value stop_limit = "stop_limit"
type_value take_profit = "take_profit"
type_value trailing_stop = "trailing_stop"

abbrev pub tif_value : TimeInForce → String
tif_value gtc = "GTC"
tif_value ioc = "IOC"
tif_value fok = "FOK"

-- The `Ticker` that the adapter returns; the timestamp is what the exchange sent.
pub record ExchangeTicker (N : Type 0) (D : Type 0) : Type 0 where
  pub symbol : String
  pub last : D
  pub bid : Option D
  pub ask : Option D
  pub high : Option D
  pub low : Option D
  pub base_volume : Option D
  pub timestamp : Json N

-- The arguments of ccxt's `create_order`.
pub record Sent (N : Type 0) : Type 0 where
  pub symbol : String
  pub type : String
  pub side : String
  pub amount : N
  pub price : Option N
  pub params : Fields N

-- The methods of the ccxt client.
pub record Client (N : Type 0) : Type 0 where
  pub fetch_ticker : String → Outcome (Fields N)
  pub fetch_balance : Outcome (Fields N)
  pub fetch_positions : Option (List String) → Outcome (List (Fields N))
  pub create_order : Sent N → Outcome (Fields N)
  pub cancel_order : String → String → Outcome (Fields N)
  pub fetch_order : String → String → Outcome (Fields N)
  pub fetch_open_orders : Option String → Outcome (List (Fields N))

-- `symbol or ""`
abbrev pub symbol_or_empty : Option String → String
symbol_or_empty none = ""
symbol_or_empty (some s) = s

module _ {N : Type 0} (dec : Decimal) (cv : Conversions N dec.D) where
  open dec use {D}

  abbrev with_stop : Option D → Fields N → Fields N
  with_stop none params = params
  with_stop (some price) params = set_field "stopPrice" (Json.number (cv.to_float price)) params

  abbrev with_client_id : Option String → Fields N → Fields N
  with_client_id none params = params
  with_client_id (some id) params =
      if str_eq id "" then params else set_field "clientOrderId" (text id) params

  abbrev flagged : Bool → String → Fields N → Fields N
  flagged b key params = if b then set_field key (Json.flag true) params else params

  -- `params` of `create_order`, from those of the request
  unfoldable pub order_params : OrderRequest D → Fields N → Fields N
  order_params r params = set_field "timeInForce" (text (tif_value r.time_in_force)) (
      with_client_id r.client_order_id (
        with_stop r.stop_price
          (flagged r.post_only "postOnly" (flagged r.reduce_only "reduceOnly" params))))

  abbrev pub price_to_float : Option D → Option N
  price_to_float none = none
  price_to_float (some price) = some (cv.to_float price)

  unfoldable pub sent_order : OrderRequest D → Fields N → Sent N
  sent_order r params = record {
    symbol = r.symbol;
    type = type_value r.type;
    side = side_value r.side;
    amount = cv.to_float r.amount;
    price = price_to_float r.price;
    params = order_params r params;
  }

  -- each order is asked for its own symbol first
  unfoldable pub parse_all :
      Option String → List (Fields N) → Result AppError (List (ExchangeOrder N D))
  parse_all symbol [] = ok []
  parse_all symbol (o ∷ raw) =
      let rest = parse_all symbol raw in
      and_then (parse_order dec cv o (get "symbol" (text (symbol_or_empty symbol)) o))
        (λ x. map_ok (λ xs. x ∷ xs) rest)

  -- `self._call(...)`, and what is read from the answer
  abbrev pub asked :
      {A B : Type 0}
      → ℕ
      → ℕ
      → Outcome A
      → (A → Result AppError B)
      → CircuitBreaker
      → Result AppError B × CircuitBreaker
  asked begun ended outcome read breaker =
      let (answer, breaker') = call_exchange begun ended outcome breaker in
      (and_then answer read, breaker')

  module _ (client : Client N) (begun ended : ℕ) where
    unfoldable pub fetch_ticker :
        String → CircuitBreaker → Result AppError (ExchangeTicker N D) × CircuitBreaker
    fetch_ticker symbol = asked begun ended (client.fetch_ticker symbol) (λ t.
        and_then (decimal_or_zero dec cv (get "last" null t)) (λ last.
          and_then (optional_decimal dec cv (get "bid" null t)) (λ bid.
            and_then (optional_decimal dec cv (get "ask" null t)) (λ ask.
              and_then (optional_decimal dec cv (get "high" null t)) (λ high.
                and_then (optional_decimal dec cv (get "low" null t)) (λ low.
                  map_ok
                    (λ base_volume. record {
                      symbol = symbol;
                      last = last;
                      bid = bid;
                      ask = ask;
                      high = high;
                      low = low;
                      base_volume = base_volume;
                      timestamp = get "timestamp" null t;
                    })
                    (optional_decimal dec cv (get "baseVolume" null t))))))))

    unfoldable pub fetch_balance :
        CircuitBreaker → Result AppError (List (Balance D)) × CircuitBreaker
    fetch_balance = asked begun ended client.fetch_balance (balances_of dec cv)

    unfoldable pub fetch_positions :
        Option (List String)
        → CircuitBreaker
        → Result AppError (List (Position N D)) × CircuitBreaker
    fetch_positions symbols =
        asked begun ended (client.fetch_positions symbols) (positions_of dec cv)

    unfoldable pub create_order :
        OrderRequest D
        → Fields N
        → CircuitBreaker
        → Result AppError (ExchangeOrder N D) × CircuitBreaker
    create_order request params =
        asked begun ended (client.create_order (sent_order request params))
          (λ raw. parse_order dec cv raw (text request.symbol))

    unfoldable pub cancel_order :
        String → String → CircuitBreaker → Result AppError (ExchangeOrder N D) × CircuitBreaker
    cancel_order order_id symbol =
        asked begun ended (client.cancel_order order_id symbol)
          (λ raw. parse_order dec cv raw (text symbol))

    unfoldable pub fetch_order :
        String → String → CircuitBreaker → Result AppError (ExchangeOrder N D) × CircuitBreaker
    fetch_order order_id symbol =
        asked begun ended (client.fetch_order order_id symbol)
          (λ raw. parse_order dec cv raw (text symbol))

    unfoldable pub fetch_open_orders :
        Option String → CircuitBreaker → Result AppError (List (ExchangeOrder N D)) × CircuitBreaker
    fetch_open_orders symbol =
        asked begun ended (client.fetch_open_orders symbol) (parse_all symbol)
