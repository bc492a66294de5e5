-- ===== src/Exchange/Factory/Safe.antt =====
-- When an adapter can send an order to an exchange.
use multi_platform_crypto_tr.Base.{
  ◌≡◌, ◌⊎◌, refl, inl, inr, String, Bool, true, false, Option, none, some, arith, Option-cases,
  ◌||◌, str_eq,
}
use multi_platform_crypto_tr.Base.Dict.{lookup}
use multi_platform_crypto_tr.Base.Result.{ok}
use multi_platform_crypto_tr.Exchange.Registry.{
  ExchangeInfo, supported_exchanges, get_info, is_supported,
}
use multi_platform_crypto_tr.Exchange.Factory.{
  ExchangeCredentials, is_complete, CcxtAdapter, paper, Policy, new_ccxt, public_market_adapter,
  build,
}
use multi_platform_crypto_tr.Security.Words.{Words}

abbrev is_without_testnet : String → Bool
is_without_testnet id = str_eq id "kraken" || str_eq id "coinbase" || str_eq id "mexc"

-- The adapter of this exchange with these credentials, which the policy may put on test.
abbrev pub adapter_of : Policy → String → ExchangeInfo → ExchangeCredentials → CcxtAdapter
adapter_of policy market_type info c = record {
  exchange_id = info.id;
  info = info;
  credentials = some (record {
    api_key = c.api_key;
    api_secret = c.api_secret;
    passphrase = c.passphrase;
    subaccount = c.subaccount;
    testnet = policy.use_exchange_testnet;
  });
  default_market_type = market_type;
}

module _ {L : Type 0} (w : Words) (policy : Policy) (exchange_id market_type : String)
    (ledger : Option L) where
  abbrev Qualifies : Option ExchangeCredentials → Bool → CcxtAdapter → Type 0
  Qualifies credentials is_paper adapter =
      (policy.allow_live_trading ≡ true)
      × (is_paper ≡ false)
      × (c : ExchangeCredentials) × (credentials ≡ some c)
      × (is_complete c ≡ true)
      × (new_ccxt w exchange_id (some (record c { testnet = policy.use_exchange_testnet }))
            market_type
          ≡ ok adapter)

  -- For a paper account, and for every account while live trading is not allowed, the adapter of a
  -- supported exchange is a paper adapter with the given ledger, whatever credentials there are, and
  -- it reads market data without any.
  pub paper_forced :
      (credentials : Option ExchangeCredentials) (is_paper : Bool)
      → (is_paper ≡ true) ⊎ (policy.allow_live_trading ≡ false)
      → is_supported w exchange_id ≡ true
      → (market : CcxtAdapter) × (build w policy exchange_id credentials is_paper market_type ledger
          ≡ ok (paper market ledger))
        × (market.credentials ≡ none)
  unfolding build public_market_adapter new_ccxt is_supported get_info
  paper_forced credentials is_paper why known =
      elim (Option-cases (lookup (w.lower exchange_id) supported_exchanges)) [
        | inl unknown ↦ absurd (ground (arith, unknown, known))
        | inr (info, found) ↦ (
          record {
            exchange_id = info.id;
            info = info;
            credentials = none;
            default_market_type = "spot";
          },
          ground (arith, why, found),
          refl,
        )
      ]
