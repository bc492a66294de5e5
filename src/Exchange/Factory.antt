-- ===== src/Exchange/Factory.antt =====
-- Which adapter an account gets: app/exchange/factory.py, app/exchange/credentials.py and the
-- constructor and the client's configuration of app/exchange/ccxt_adapter.py.
pub mod Safe
mod Tests
use multi_platform_crypto_tr.Base.{
  String, Bool, true, false, not, ◌&&◌, ◌||◌, Option, none, some, str_eq, if◌then◌else◌,
}
use multi_platform_crypto_tr.Base.Result.{Result, ok, err, map_ok}
use multi_platform_crypto_tr.Exceptions.{AppError, unsupported_exchange}
use multi_platform_crypto_tr.Exchange.Registry.{ExchangeInfo, get_info, is_supported}
use multi_platform_crypto_tr.Security.Words.{Words}

pub record ExchangeCredentials : Type 0 where
  pub api_key : String
  pub api_secret : String
  pub passphrase : Option String
  pub subaccount : Option String
  pub testnet : Bool

-- `bool(api_key and api_secret)`
unfoldable pub is_complete : ExchangeCredentials → Bool
is_complete c = not (str_eq c.api_key "") && not (str_eq c.api_secret "")

-- What `CcxtAdapter.__init__` keeps.
pub record CcxtAdapter : Type 0 where
  pub exchange_id : String
  pub info : ExchangeInfo
  pub credentials : Option ExchangeCredentials
  pub default_market_type : String

unfoldable pub new_ccxt :
    Words → String → Option ExchangeCredentials → String → Result AppError CcxtAdapter
new_ccxt w exchange_id credentials market_type = elim (get_info w exchange_id) [
  | none ↦ err unsupported_exchange
  | some info ↦ ok (record {
    exchange_id = info.id;
    info = info;
    credentials = credentials;
    default_market_type = market_type;
  })
]

-- An adapter is a paper adapter over public market data, with the ledger that it is given, or one
-- that sends orders to the exchange.
pub data Adapter (L : Type 0) : Type 0 where
  paper : CcxtAdapter → Option L → Adapter L
  live : CcxtAdapter → Adapter L

pub record Policy : Type 0 where
  pub allow_live_trading : Bool
  pub use_exchange_testnet : Bool

unfoldable pub public_market_adapter : Words → String → Result AppError CcxtAdapter
public_market_adapter w exchange_id =
    if is_supported w exchange_id
    then new_ccxt w exchange_id none "spot"
    else err unsupported_exchange

module _ {L : Type 0} where
  -- the live path, once the credentials are known
  abbrev build_live :
      Words → Policy → String → Option ExchangeCredentials → String → Result AppError (Adapter L)
  build_live w policy exchange_id none market_type = err unsupported_exchange
  build_live w policy exchange_id (some c) market_type =
      if is_complete c
      then map_ok live (
          new_ccxt w exchange_id (some (record c { testnet = policy.use_exchange_testnet }))
            market_type)
      else err unsupported_exchange

  unfoldable pub build :
      Words
      → Policy
      → String
      → Option ExchangeCredentials
      → Bool
      → String
      → Option L
      → Result AppError (Adapter L)
  build w policy exchange_id credentials is_paper market_type ledger =
      if is_supported w exchange_id
      then (if is_paper || not policy.allow_live_trading
          then map_ok (λ market. paper market ledger) (public_market_adapter w exchange_id)
          else build_live w policy exchange_id credentials market_type)
      else err unsupported_exchange

-- `client.set_sandbox_mode(True)` in `_build_client`: the client talks to the test network
unfoldable pub uses_sandbox : CcxtAdapter → Bool
uses_sandbox a = elim a.credentials [ none ↦ false | some c ↦ c.testnet && a.info.has_testnet ]
