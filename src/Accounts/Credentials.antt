-- ===== src/Accounts/Credentials.antt =====
-- What becomes of the credentials of a live account.
use multi_platform_crypto_tr.Base.{
  ◌≡◌, refl, String, true, false, Option, none, some, arith, str_eq,
}
use multi_platform_crypto_tr.Base.Result.{ok}
use multi_platform_crypto_tr.Accounts.{
  Cipher, NewAccount, truthy, encrypted, live_account, decrypt_credentials,
}

-- What Fernet documents: a token is no empty text, and decrypts to what was encrypted.
pub record IsCipher (cipher : Cipher) : Type 0 where
  pub opens : (s : String) → cipher.decrypt (cipher.encrypt s) ≡ ok s
  pub not_empty : (s : String) → str_eq (cipher.encrypt s) "" ≡ false

-- The credentials of a live account come back as they were given, apart from an empty passphrase,
-- which counts as none; the row holds their ciphertexts alone.
pub credentials_round_trip :
    (cipher : Cipher) (n : NewAccount) (api_key api_secret : String) (passphrase : Option String)
    → IsCipher cipher
    → let a = live_account cipher n api_key api_secret passphrase in
      (decrypt_credentials cipher a
        ≡ ok (
            some (record {
              api_key = api_key;
              api_secret = api_secret;
              passphrase = truthy passphrase;
              subaccount = none;
              testnet = true;
            })))
      × (a.api_key_enc ≡ some (cipher.encrypt api_key))
      × (a.api_secret_enc ≡ some (cipher.encrypt api_secret))
      × (a.passphrase_enc ≡ encrypted cipher (truthy passphrase))
unfolding live_account decrypt_credentials
credentials_round_trip cipher n api_key api_secret none laws = (
  ground (
    arith,
    laws.opens api_key,
    laws.opens api_secret,
    laws.not_empty api_key,
    laws.not_empty api_secret,
  ),
  refl,
  refl,
  refl,
)
credentials_round_trip cipher n api_key api_secret (some p) laws = (
  ground (
    arith,
    laws.opens api_key,
    laws.opens api_secret,
    laws.not_empty api_key,
    laws.not_empty api_secret,
    laws.opens p,
    laws.not_empty p,
  ),
  refl,
  refl,
  refl,
)
