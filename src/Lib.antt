-- ===== src/Lib.antt =====
-- The core of the multi-platform crypto trading hub: the paper exchange and the trading service over
-- it, the accounts and their adapters to exchanges, the portfolio, the risk calculators, the
-- indicators, the resilience helpers, authentication and the HTTP layer. Paths are from the
-- repository's root.
--
-- The parts and their files:
-- Base: Boolean tests, lists measured by native numbers, dictionaries as association lists in
-- insertion order, results. A dictionary has no key twice; where that matters it is a hypothesis.
-- Decimal: the numbers of `decimal.Decimal` as an interface with the laws of correct rounding,
-- which the theorems take as a hypothesis; Decimal/Fixed is an instance with four decimal places,
-- used by the witnesses. The 28 digits of Python's context, infinities and NaN are not modelled.
-- Exceptions: app/core/exceptions.py; an error is a constructor, less its message. `unhandled` is
-- any other exception.
-- Trading, Trading/Risk: app/trading/enums.py and app/trading/risk.py.
-- Exchange/Models, Exchange/Symbol, Exchange/Paper: app/exchange/models.py,
-- app/exchange/paper_store.py and app/exchange/paper.py. A ledger is passed through `create_order`
-- and `cancel_order`, which return a result and the ledger that they leave, also when they raise.
-- What the market source returns, and the identifier that is drawn, are arguments.
-- Trading/Service: app/services/trading_service.py for accounts that trade on paper, with the rows
-- of app/models/order.py and app/repositories/paper_ledger_repository.py. A desk holds the owners
-- of the accounts, their balances and the order rows (Trading/Service/Store); placing an order
-- loads the ledger from it, applies the risk limits of Trading/Risk, places it by Exchange/Paper
-- and saves the ledger. It stands in `adapter_session` of app/services/account_service.py: whether
-- `build_adapter`, which Accounts models, returned or raised is an argument of placing and cancelling.
-- The desk is what the session of the request holds, before its commit or rollback.
-- Exchange/Registry, Exchange/Factory: app/exchange/registry.py, app/exchange/factory.py,
-- app/exchange/credentials.py, and what app/exchange/ccxt_adapter.py keeps of them.
-- Accounts: app/services/account_service.py with the rows of app/models/account.py and their queries.
-- The adapter of an account comes from Exchange/Factory. A row that breaks the unique
-- constraint on user, exchange and label ends in an unhandled error.
-- Api/RateLimiter: the limiter of app/api/middleware.py. Api/RateLimiter/Spec is what it promises, on
-- the whole history of the admitted requests. Api/ClientAddress: app/api/client_address.py; the
-- `ipaddress` library is an argument.
-- Exchange/Ccxt: the rest of app/exchange/ccxt_adapter.py. Exchange/Ccxt/Guarded is its `_call`, around
-- Resilience/Breaker; Exchange/Ccxt/Response reads values; Exchange/Ccxt/Orders and
-- Exchange/Ccxt/Positions read answers. The client of ccxt and the conversions of Python are arguments.
-- Trading/Listing: the listing of orders, with app/repositories/order_repository.py. Rows come with
-- their `created_at`, and rows of one moment keep the order of the table.
-- Api/CurrentUser: `get_current_user` and the guards of app/api/deps.py, over the tokens.
-- Schemas: `OrderCreate` of app/schemas/trading.py; its pattern is read by runs of characters.
-- Config, Logging: app/config/settings.py and the redaction of app/core/logging.py.
-- Portfolio: app/services/portfolio_service.py, over the accounts of Accounts.
-- Market: app/services/market_service.py, over the indicators of Analytics and Exchange/Factory.
-- Analytics: app/analytics/indicators.py, with the averages in Indicators, the windows in Bands and the
-- trends in Trend; the arithmetic of floats is an argument without laws.
-- Resilience/Breaker, Resilience/Retry: app/core/resilience.py. Calls of the breaker suspend while
-- they run, so Breaker/Interleaving has steps that admit a call and steps that end one.
-- Security: the files of app/security. Clock readings are natural numbers of nanoseconds, since the
-- floats of `time.monotonic` and `datetime.now` are finer than the whole seconds that tokens hold.
-- The methods of `str` that rest on Unicode tables, the JWT library and pyotp are arguments.
-- Auth: app/services/auth_service.py, with the rows of app/models and the repositories it uses. A
-- handler is a function from the world to a result and the world that it leaves. The world has the
-- session's view of the database, what was committed, the throttle and the revoked tokens;
-- `in_request` is the transaction of app/database/session.py, which rolls back on an exception. One
-- request reads each clock once. Argon2 and the cipher are arguments.
--
-- The authentication service uses the throttle, the token store, the token service and the one-time
-- codes through their operations, and its theorems apply theirs: Auth/Login/Guessing that of
-- Security/Throttle/Lockout, Auth/Sessions/Rotation that of Security/TokenStore/Revocation.
--
-- No definition needs fuel: every loop recurs on a list, on the characters of a text or on a count
-- that the source bounds (the steps of a code window, the attempts of a retry).
--
-- Not modelled: the Redis stores, whose behaviour is that of a server; order books and candles of the
-- ccxt adapter, which are copied; the other schemas, the routers, the workers and migrations; what
-- the trading service does for live accounts. Time spent in a call is visible only through the clock
-- readings.
pub mod Accounts
pub mod Analytics
pub mod Api
pub mod Auth
pub mod Base
pub mod Config
pub mod Decimal
pub mod Exceptions
pub mod Exchange
pub mod Logging
pub mod Market
pub mod Portfolio
pub mod Resilience
pub mod Schemas
pub mod Security
pub mod Trading
