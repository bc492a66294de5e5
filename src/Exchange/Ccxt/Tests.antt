-- ===== src/Exchange/Ccxt/Tests.antt =====
-- Witnesses for the ccxt adapter. A decimal is printed in unary.
use multi_platform_crypto_tr.Base.{
  ℕ, zero, suc, ap, ◌==◌, if◌then◌else◌, ◌≡◌, ◌≢◌, ◌⊎◌, refl, String, true, false, Option, none,
  some, [], ◌∷◌, map,
}
use Prim.Native.Char.{code}
use multi_platform_crypto_tr.Api.ClientAddress.Forged.{append}
use multi_platform_crypto_tr.Base.Result.{ok, err}
use multi_platform_crypto_tr.Decimal.Fixed.{ℤ, pos, negsuc, fixed, fixed-IsRounding}
use multi_platform_crypto_tr.Exceptions.{
  AppError, exchange_error, circuit_open, unhandled, not_found,
}
use multi_platform_crypto_tr.Trading.{buy, OrderType, OrderStatus, gtc}
use multi_platform_crypto_tr.Exchange.Models.{OrderRequest}
use multi_platform_crypto_tr.Exchange.Ccxt.{
  Client, create_order, cancel_order, fetch_order, fetch_open_orders,
}
use multi_platform_crypto_tr.Exchange.Ccxt.Response.{
  Json, null, text, number, end, field, Conversions, get,
}
use multi_platform_crypto_tr.Exchange.Ccxt.Guarded.{
  Raised, answers, raises, is_exchange_error, is_unavailable, normalise_error, call_exchange,
}
use multi_platform_crypto_tr.Exchange.Ccxt.Orders.{ExchangeOrder}
use multi_platform_crypto_tr.Exchange.Ccxt.Errors.{
  request_normalised, cancel_never_not_found, accepted_order_lost,
}
use multi_platform_crypto_tr.Exchange.Ccxt.Unified.{KeepsText, IsExact, unified, orders_round_trip}
use multi_platform_crypto_tr.Resilience.Breaker.{
  CircuitBreaker, new, can_attempt, call, record_success,
}

-- a sign, and a character for each unit of the last place
unfoldable strokes : ℕ → String
strokes zero = ""
strokes (suc n) = append "1" (strokes n)

unfoldable count : String → ℕ
count String.[] = 0
count (String.◌∷◌ c s) = suc (count s)

unfoldable read_decimal : String → Option ℤ
read_decimal String.[] = none
read_decimal (String.◌∷◌ c s) =
    if code c == b'+' then some (pos (count s)) else some (negsuc (count s))

unfoldable printed : Json ℤ → String
printed (text s) = s
printed (number (pos n)) = append "+" (strokes n)
printed (number (negsuc n)) = append "-" (strokes n)
printed v = ""

abbrev strokes_for : Conversions ℤ ℤ
strokes_for = record {
  to_str = printed;
  to_decimal = read_decimal;
  to_int = λ v. some 1;
  to_float = λ d. d;
  is_truthy = λ n. true;
}

count-strokes : (n : ℕ) → count (strokes n) ≡ n
unfolding count strokes append
count-strokes zero = refl
count-strokes (suc n) = ap suc (count-strokes n)

read_back : (d : ℤ) → read_decimal (printed (number d)) ≡ some d
unfolding read_decimal printed append
read_back (pos n) = rw (count-strokes n) refl
read_back (negsuc n) = rw (count-strokes n) refl

keeps_text : KeepsText strokes_for
unfolding printed
keeps_text s = refl

abbrev order : ExchangeOrder ℤ ℤ
order = record {
  id = "7";
  symbol = text "BTC/USDT";
  side = buy;
  type = OrderType.limit;
  status = OrderStatus.opened;
  amount = pos 10000;
  filled = pos 0;
  price = some (pos 20000);
  average = none;
  timestamp = null;
  client_order_id = null;
  fee = pos 0;
}

-- An exchange that has this one order, and answers a new one without its side.
abbrev client : Client ℤ
client = record {
  fetch_ticker = λ s. raises (Raised.of_library "RequestTimeout");
  fetch_balance = raises (Raised.of_library "RequestTimeout");
  fetch_positions = λ s. answers [];
  create_order = λ s. answers (field "id" (text "8") (field "side" null end));
  cancel_order = λ i s. raises (Raised.of_library "OrderNotFound");
  fetch_order = λ i s. answers (unified fixed strokes_for order);
  fetch_open_orders = λ s. answers (map (unified fixed strokes_for) (order ∷ []));
}

abbrev breaker : CircuitBreaker
breaker = new 5 30

abbrev request : OrderRequest ℤ
request = record {
  symbol = "BTC/USDT";
  side = buy;
  type = OrderType.market;
  amount = pos 10000;
  price = none;
  stop_price = none;
  time_in_force = gtc;
  reduce_only = false;
  post_only = false;
  leverage = none;
  client_order_id = some "c1";
}

request_normalised_example :
    let answer =
      (call_exchange {A = ℕ} 1 2 (raises (Raised.of_library "RequestTimeout")) breaker).0 in
    ((e : AppError) → answer ≡ err e → is_exchange_error e ≡ true)
    × ((can_attempt 1 breaker).0 ≡ false → answer ≡ err circuit_open)
    × ((can_attempt 1 breaker).0 ≡ true
        → (a : ℕ)
        → (answer ≡ ok a → raises (Raised.of_library "RequestTimeout") ≡ answers a)
          × (raises (Raised.of_library "RequestTimeout") ≡ answers a → answer ≡ ok a))
request_normalised_example =
    request_normalised 1 2 (raises (Raised.of_library "RequestTimeout")) breaker

cancel_never_not_found_example :
    ((is_exchange_error exchange_error ≡ true) ⊎ (exchange_error ≡ unhandled))
    × (exchange_error ≢ not_found)
unfolding cancel_order call_exchange call can_attempt normalise_error is_unavailable
cancel_never_not_found_example =
    cancel_never_not_found fixed strokes_for client 1 2 breaker "9" "BTC/USDT" exchange_error refl

accepted_order_lost_example :
    create_order fixed strokes_for client 1 2 request end breaker
    ≡ (err unhandled, record_success (can_attempt 1 breaker).1)
unfolding can_attempt get
accepted_order_lost_example =
    accepted_order_lost fixed strokes_for client 1 2 breaker request end
      (field "id" (text "8") (field "side" null end)) refl refl refl

order-IsExact : IsExact strokes_for order
order-IsExact =
    (read_back (pos 10000), read_back (pos 0), read_back (pos 0), read_back (pos 20000), tt)

orders_round_trip_example :
    ((fetch_order fixed strokes_for client 1 2 "7" "BTC/USDT" breaker).0 ≡ ok order)
    × ((fetch_open_orders fixed strokes_for client 1 2 none breaker).0 ≡ ok (order ∷ []))
unfolding can_attempt
orders_round_trip_example =
    orders_round_trip fixed strokes_for fixed-IsRounding keeps_text client 1 2 breaker "7"
      "BTC/USDT" none order (order ∷ []) refl refl (refl, tt) order-IsExact (order-IsExact, tt) refl
      refl
