-- ===== src/Logging.antt =====
-- `_redact_processor` of app/core/logging.py, over the type `V` of the values of an event.
pub mod Redacted
use multi_platform_crypto_tr.Base.{String, true, List, [], ◌∷◌, if◌then◌else◌}
use multi_platform_crypto_tr.Base.Dict.{Dict}
use multi_platform_crypto_tr.Market.{is_in}
use multi_platform_crypto_tr.Security.Words.{Words}

-- `_SENSITIVE_KEYS`
abbrev pub sensitive_keys : List String
sensitive_keys =
    "password" ∷ "secret" ∷ "api_secret" ∷ "api_key" ∷ "apikey" ∷ "passphrase" ∷ "token"
    ∷ "access_token" ∷ "refresh_token" ∷ "authorization" ∷ "master_encryption_key"
    ∷ "jwt_secret_key" ∷ "private_key" ∷ "totp_secret" ∷ []

-- the loop over the keys, with the placeholder for redacted values
unfoldable pub redact : {V : Type 0} → Words → V → Dict V → Dict V
redact w redacted [] = []
redact w redacted ((key, value) ∷ event) =
    let rest = redact w redacted event in
    if is_in (w.lower key) sensitive_keys then (key, redacted) ∷ rest else (key, value) ∷ rest
