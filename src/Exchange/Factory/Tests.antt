-- ===== src/Exchange/Factory/Tests.antt =====
-- Witnesses for the choice of an adapter.
use multi_platform_crypto_tr.Base.{true, false, none}
use multi_platform_crypto_tr.Exchange.Registry.{ExchangeInfo}
use multi_platform_crypto_tr.Exchange.Factory.{ExchangeCredentials, CcxtAdapter, Policy}
use multi_platform_crypto_tr.Exchange.Factory.Safe.{adapter_of}

abbrev policy : Policy
policy = record { allow_live_trading = true; use_exchange_testnet = true }

abbrev keys : ExchangeCredentials
keys = record {
  api_key = "key";
  api_secret = "secret";
  passphrase = none;
  subaccount = none;
  testnet = false;
}

abbrev bybit : ExchangeInfo
bybit = record {
  id = "bybit";
  name = "Bybit";
  requires_passphrase = false;
  supports_futures = true;
  supports_margin = true;
  has_testnet = true;
}

abbrev client : CcxtAdapter
client = adapter_of policy "swap" bybit keys
