-- ===== src/Exchange/Ccxt/Guarded.antt =====
-- `CcxtAdapter._call` and `status` of app/exchange/ccxt_adapter.py: every request goes through the
-- breaker of the exchange. What the exchange answers is an argument; a cancelled call has no result
-- and is left out.
use multi_platform_crypto_tr.Base.{ℕ, String, Bool, true, false, ◌||◌, str_eq, if◌then◌else◌}
use multi_platform_crypto_tr.Base.Result.{Result, ok, err}
use multi_platform_crypto_tr.Exceptions.{
  AppError, exchange_error, exchange_unavailable, circuit_open,
}
use multi_platform_crypto_tr.Resilience.Breaker as Breaker
use multi_platform_crypto_tr.Resilience.Breaker.{CircuitBreaker, Ending}

-- An exception that ends a call: one of the application, as when ccxt is not installed, or one of
-- another library, by the name of its class.
pub data Raised : Type 0 where
  of_app : AppError → Raised
  of_library : String → Raised

pub data Outcome (A : Type 0) : Type 0 where
  answers : A → Outcome A
  raises : Raised → Outcome A

-- `isinstance(exc, ExchangeError)`
abbrev pub is_exchange_error : AppError → Bool
is_exchange_error exchange_error = true
is_exchange_error exchange_unavailable = true
is_exchange_error circuit_open = true
is_exchange_error _ = false

unfoldable pub is_unavailable : String → Bool
is_unavailable name =
    str_eq name "NetworkError"
    || str_eq name "RequestTimeout"
    || str_eq name "ExchangeNotAvailable"
    || str_eq name "DDoSProtection"

unfoldable pub normalise_error : Raised → AppError
normalise_error (of_app e) = if is_exchange_error e then e else exchange_error
normalise_error (of_library name) =
    if is_unavailable name then exchange_unavailable else exchange_error

module _ {A : Type 0} where
  abbrev pub ending_of : Outcome A → Ending
  ending_of (answers a) = Ending.returned
  ending_of (raises e) = Ending.raised

  abbrev pub result_of : Outcome A → Result AppError A
  result_of (answers a) = ok a
  result_of (raises e) = err (normalise_error e)

  -- `_call`, when it begins and when it ends
  unfoldable pub call_exchange :
      ℕ → ℕ → Outcome A → CircuitBreaker → Result AppError A × CircuitBreaker
  call_exchange begun ended outcome breaker =
      let (admitted, breaker') = Breaker.call begun (ending_of outcome) ended breaker in
      (if admitted then result_of outcome else err circuit_open, breaker')

  -- `status`: whether the exchange is up
  unfoldable pub status : ℕ → ℕ → Outcome A → CircuitBreaker → Bool × CircuitBreaker
  status begun ended outcome breaker =
      let (answer, breaker') = call_exchange begun ended outcome breaker in
      (elim answer [ ok a ↦ true | err e ↦ false ], breaker')
