-- ===== src/Exchange/Registry.antt =====
-- The supported exchanges, app/exchange/registry.py.
use multi_platform_crypto_tr.Base.{String, Bool, true, false, not, Option, List, [], ◌∷◌, is_none}
use multi_platform_crypto_tr.Base.Dict.{Dict, lookup}
use multi_platform_crypto_tr.Security.Words.{Words}

pub record ExchangeInfo : Type 0 where
  pub id : String
  pub name : String
  pub requires_passphrase : Bool
  pub supports_futures : Bool
  pub supports_margin : Bool
  pub has_testnet : Bool

-- an entry with the defaults of the dataclass
abbrev exchange : String → String → ExchangeInfo
exchange id name = record {
  id = id;
  name = name;
  requires_passphrase = false;
  supports_futures = true;
  supports_margin = true;
  has_testnet = true;
}

-- `{e.id: e for e in entries}`
abbrev by_id : List ExchangeInfo → Dict ExchangeInfo
by_id [] = []
by_id (e ∷ rest) = (e.id, e) ∷ by_id rest

abbrev pub supported_exchanges : Dict ExchangeInfo
supported_exchanges = by_id (
    exchange "binance" "Binance"
    ∷ exchange "bybit" "Bybit"
    ∷ record (exchange "okx" "OKX") { requires_passphrase = true }
    ∷ record (exchange "kucoin" "KuCoin") { requires_passphrase = true }
    ∷ record (exchange "kraken" "Kraken") { has_testnet = false }
    ∷ record (exchange "coinbase" "Coinbase") { supports_futures = false; has_testnet = false }
    ∷ record (exchange "bitget" "Bitget") { requires_passphrase = true }
    ∷ exchange "gateio" "Gate.io"
    ∷ record (exchange "mexc" "MEXC") { has_testnet = false }
    ∷ [])

unfoldable pub get_info : Words → String → Option ExchangeInfo
get_info w exchange_id = lookup (w.lower exchange_id) supported_exchanges

unfoldable pub is_supported : Words → String → Bool
is_supported w exchange_id = not (is_none (lookup (w.lower exchange_id) supported_exchanges))
