-- ===== src/Exceptions.antt =====
-- The exception hierarchy of app/core/exceptions.py: one constructor for each class. Messages are
-- left out; of the details, only the `retry_after` that a handler reads is kept.
use multi_platform_crypto_tr.Base.{ℕ}

pub data AppError : Type 0 where
  authentication_error invalid_token two_factor_required : AppError
  account_locked : ℕ → AppError  -- details={"retry_after": n}
  permission_denied not_found conflict validation_error rate_limited : AppError
  encryption_error exchange_error exchange_unavailable circuit_open : AppError
  unsupported_exchange live_trading_disabled insufficient_balance risk_limit_exceeded : AppError
  unhandled : AppError  -- any exception of another class, such as a TypeError

abbrev pub status_code : AppError → ℕ
status_code authentication_error = 401
status_code invalid_token = 401
status_code two_factor_required = 401
status_code (account_locked retry_after) = 429
status_code permission_denied = 403
status_code not_found = 404
status_code conflict = 409
status_code validation_error = 422
status_code rate_limited = 429
status_code encryption_error = 500
status_code exchange_error = 502
status_code exchange_unavailable = 503
status_code circuit_open = 503
status_code unsupported_exchange = 400
status_code live_trading_disabled = 403
status_code insufficient_balance = 400
status_code risk_limit_exceeded = 400
status_code unhandled = 500
