-- ===== src/Exchange/Ccxt/Errors.antt =====
-- Which errors the ccxt adapter raises.
use multi_platform_crypto_tr.Base.{
  ℕ, ◌≡◌, ◌≢◌, ◌⊎◌, refl, inl, inr, String, true, false, List, arith, Bool-cases,
}
use multi_platform_crypto_tr.Base.Result.{Result, ok, err, map_ok, and_then, Result-cases}
use multi_platform_crypto_tr.Decimal.{Decimal}
use multi_platform_crypto_tr.Exceptions.{AppError, circuit_open, unhandled, not_found}
use multi_platform_crypto_tr.Trading.{limit, opened}
use multi_platform_crypto_tr.Exchange.Models.{OrderRequest}
use multi_platform_crypto_tr.Exchange.Ccxt.{Client, asked, sent_order, create_order, cancel_order}
use multi_platform_crypto_tr.Exchange.Ccxt.Response.{
  Json, null, text, Fields, Conversions, get, optional_decimal, decimal_or_zero, or_zero, truthy,
  as_dict,
}
use multi_platform_crypto_tr.Exchange.Ccxt.Guarded.{
  Raised, Outcome, answers, raises, is_exchange_error, normalise_error, call_exchange,
}
use multi_platform_crypto_tr.Exchange.Ccxt.Orders.{
  cost_or_zero, fee_of, side_of, mapped, type_map, status_map, parse_order,
}
use multi_platform_crypto_tr.Resilience.Breaker.{
  CircuitBreaker, can_attempt, record_success, call, record_ending,
}

normalise_error_family : (e : Raised) → is_exchange_error (normalise_error e) ≡ true
unfolding normalise_error
normalise_error_family (Raised.of_app e) = ground arith
normalise_error_family (Raised.of_library name) = ground arith

module _ {A : Type 0} where
  -- A request to an exchange gives what the exchange answered, or one of the errors of an exchange,
  -- whatever exception ended it; while the breaker rejects, it is the error of the open circuit, and
  -- the exchange is not heard. A request that is let through gives a value exactly if one was answered.
  pub request_normalised :
      (begun ended : ℕ) (outcome : Outcome A) (breaker : CircuitBreaker)
      → let answer = (call_exchange begun ended outcome breaker).0 in
        ((e : AppError) → answer ≡ err e → is_exchange_error e ≡ true)
        × ((can_attempt begun breaker).0 ≡ false → answer ≡ err circuit_open)
        × ((can_attempt begun breaker).0 ≡ true
            → (a : A)
            → (answer ≡ ok a → outcome ≡ answers a) × (outcome ≡ answers a → answer ≡ ok a))
  unfolding call_exchange call
  request_normalised begun ended (answers a) breaker =
      elim (Bool-cases (can_attempt begun breaker).0) [
        | inl admitted ↦ (
          λ e h. ground (arith, admitted, h),
          λ no. ground (arith, admitted, no),
          λ yes b. (λ h. ground (arith, admitted, h), λ h. ground (arith, admitted, h)),
        )
        | inr rejected ↦ (
          λ e h. ground (arith, rejected, h),
          λ no. ground (arith, rejected),
          λ yes. ground (arith, rejected, yes),
        )
      ]
  request_normalised begun ended (raises x) breaker =
      elim (Bool-cases (can_attempt begun breaker).0) [
        | inl admitted ↦ (
          λ e h. ground (arith, admitted, h, normalise_error_family x),
          λ no. ground (arith, admitted, no),
          λ yes b. (λ h. ground (arith, admitted, h), λ h. ground (arith, admitted, h)),
        )
        | inr rejected ↦ (
          λ e h. ground (arith, rejected, h),
          λ no. ground (arith, rejected),
          λ yes. ground (arith, rejected, yes),
        )
      ]

-- An error, if there is one, is no `AppError`.
abbrev OnlyUnhandled : {A : Type 0} → Result AppError A → Type 0
OnlyUnhandled (ok a) = Unit
OnlyUnhandled (err e) = e ≡ unhandled

module _ {A : Type 0} {B : Type 0} where
  and_then-OnlyUnhandled :
      (r : Result AppError A) (f : A → Result AppError B)
      → OnlyUnhandled r
      → ((a : A) → OnlyUnhandled (f a))
      → OnlyUnhandled (and_then r f)
  and_then-OnlyUnhandled (ok a) f h k = k a
  and_then-OnlyUnhandled (err e) f h k = h

  map_ok-OnlyUnhandled :
      (f : A → B) (r : Result AppError A) → OnlyUnhandled r → OnlyUnhandled (map_ok f r)
  map_ok-OnlyUnhandled f (ok a) h = tt
  map_ok-OnlyUnhandled f (err e) h = h

module _ {N : Type 0} (dec : Decimal) (cv : Conversions N dec.D) where
  open dec use {D}

  optional_decimal-OnlyUnhandled : (v : Json N) → OnlyUnhandled (optional_decimal dec cv v)
  unfolding optional_decimal
  optional_decimal-OnlyUnhandled v = ground arith

  decimal_or_zero-OnlyUnhandled : (v : Json N) → OnlyUnhandled (decimal_or_zero dec cv v)
  unfolding decimal_or_zero
  decimal_or_zero-OnlyUnhandled v =
      map_ok-OnlyUnhandled (or_zero dec cv) (optional_decimal dec cv v)
        (optional_decimal-OnlyUnhandled v)

  cost_or_zero-OnlyUnhandled : (v : Json N) → OnlyUnhandled (cost_or_zero dec cv v)
  cost_or_zero-OnlyUnhandled v = ground (arith, decimal_or_zero-OnlyUnhandled v)

  fee_of-OnlyUnhandled : (v : Json N) → OnlyUnhandled (fee_of dec cv v)
  unfolding fee_of
  fee_of-OnlyUnhandled v = elim (Bool-cases (truthy dec cv v)) [
    | inl given ↦ rw given (
        and_then-OnlyUnhandled (as_dict v) (λ d. cost_or_zero dec cv (get "cost" null d))
          (ground arith) (λ d. cost_or_zero-OnlyUnhandled (get "cost" null d)))
    | inr absent ↦ rw absent tt
  ]

  mapped-OnlyUnhandled :
      {A : Type 0}
      → (mapping : List (String × A)) (default : A) (v : Json N)
      → OnlyUnhandled (mapped mapping default v)
  unfolding mapped
  mapped-OnlyUnhandled mapping default v = ground arith

  side_of-OnlyUnhandled : (v : Json N) → OnlyUnhandled (side_of v)
  unfolding side_of
  side_of-OnlyUnhandled v = ground arith

  parse_order-OnlyUnhandled :
      (raw : Fields N) (symbol : Json N) → OnlyUnhandled (parse_order dec cv raw symbol)
  unfolding parse_order
  parse_order-OnlyUnhandled raw symbol =
      and_then-OnlyUnhandled _ _ (fee_of-OnlyUnhandled (get "fee" null raw)) (λ fee.
        and_then-OnlyUnhandled _ _ (side_of-OnlyUnhandled (get "side" (text "buy") raw)) (λ side.
          and_then-OnlyUnhandled _ _
            (mapped-OnlyUnhandled type_map limit (get "type" (text "limit") raw))
            (λ type.
              and_then-OnlyUnhandled _ _
                (mapped-OnlyUnhandled status_map opened (get "status" (text "") raw))
                (λ status.
                  and_then-OnlyUnhandled _ _ (decimal_or_zero-OnlyUnhandled (get "amount" null raw))
                    (λ amount.
                      and_then-OnlyUnhandled _ _
                        (decimal_or_zero-OnlyUnhandled (get "filled" null raw))
                        (λ filled.
                          and_then-OnlyUnhandled _ _
                            (optional_decimal-OnlyUnhandled (get "price" null raw))
                            (λ price.
                              map_ok-OnlyUnhandled _ _
                                (optional_decimal-OnlyUnhandled (get "average" null raw)))))))))

  known_error :
      {A B : Type 0}
      → (begun ended : ℕ) (outcome : Outcome A) (read : A → Result AppError B)
        (breaker : CircuitBreaker) (e : AppError)
      → ((a : A) → OnlyUnhandled (read a))
      → (asked dec cv begun ended outcome read breaker).0 ≡ err e
      → (is_exchange_error e ≡ true) ⊎ (e ≡ unhandled)
  known_error begun ended outcome read breaker e reads h =
      elim (Result-cases (call_exchange begun ended outcome breaker).0) [
        | inl (a, answered) ↦ ground (arith, answered, h, reads a)
        | inr (x, failed) ↦
            inl (
              ground
                (arith, failed, h, (request_normalised begun ended outcome breaker).0 x failed))
      ]

  module _ (client : Client N) (begun ended : ℕ) (breaker : CircuitBreaker) where
    -- Cancelling an order raises an error of an exchange, or an exception that is no error of the
    -- application; never that there is no such order, whatever the exchange says of the order.
    pub cancel_never_not_found :
        (order_id symbol : String) (e : AppError)
        → (cancel_order dec cv client begun ended order_id symbol breaker).0 ≡ err e
        → ((is_exchange_error e ≡ true) ⊎ (e ≡ unhandled)) × (e ≢ not_found)
    unfolding cancel_order
    cancel_never_not_found order_id symbol e h =
        let known =
          known_error begun ended (client.cancel_order order_id symbol)
            (λ raw. parse_order dec cv raw (text symbol)) breaker e
            (λ raw. parse_order-OnlyUnhandled raw (text symbol)) h in
        (known, λ none. ground (arith, known, none))

    -- An order that the exchange accepted, and answered with `None` for its side, ends in an exception
    -- that is no error of the application: the order is placed, and the caller never learns its id.
    pub accepted_order_lost :
        (request : OrderRequest D) (params raw : Fields N)
        → (can_attempt begun breaker).0 ≡ true
        → client.create_order (sent_order dec cv request params) ≡ answers raw
        → get "side" (text "buy") raw ≡ null
        → create_order dec cv client begun ended request params breaker
          ≡ (err unhandled, record_success (can_attempt begun breaker).1)
    unfolding create_order call_exchange call record_ending parse_order side_of
    accepted_order_lost request params raw admitted accepted unsided =
        elim (Result-cases (fee_of dec cv (get "fee" null raw))) [
          | inl (fee, paid) ↦ rw (accepted, admitted, paid, unsided) refl
          | inr (x, failed) ↦
              ground (arith, accepted, admitted, failed, fee_of-OnlyUnhandled (get "fee" null raw))
        ]
