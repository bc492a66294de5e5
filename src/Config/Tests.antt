-- ===== src/Config/Tests.antt =====
-- Witnesses for the settings.
use multi_platform_crypto_tr.Base.{◌≡◌, ◌≤◌, ◌↔◌, refl, true, false, [], ◌∷◌}
use multi_platform_crypto_tr.Base.Result.{ok}
use multi_platform_crypto_tr.Api.ClientAddress.{is_empty}
use multi_platform_crypto_tr.Config.{
  Settings, defaults, production, encryption_keys, len, validate_runtime, cipher_keys,
}
use multi_platform_crypto_tr.Config.Production.{starts_in_production}
use multi_platform_crypto_tr.Market.{is_in}
use multi_platform_crypto_tr.Security.Words.{plain}

abbrev settings : Settings
settings = record defaults {
  app_env = production;
  master_encryption_key = "k1,k2";
  jwt_secret_key = "short";
}

starts_in_production_example :
    ((validate_runtime plain settings ≡ ok tt) ↔ (
      (is_empty (encryption_keys plain settings) ≡ false)
      × (32 ≤ len "short")
      × (true ≡ false)
      × (is_in "*" ("http://localhost:3000" ∷ []) ≡ false)))
    × (validate_runtime plain settings ≡ ok tt
        → cipher_keys plain settings "k0" ≡ ok (encryption_keys plain settings))
starts_in_production_example = starts_in_production plain settings "k0" refl
