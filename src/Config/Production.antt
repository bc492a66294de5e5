-- ===== src/Config/Production.antt =====
-- What the settings of a process in production guarantee.
use multi_platform_crypto_tr.Base.{
  ◌≤◌, ◌≡◌, ◌↔◌, ◌∙◌, ap, inl, inr, String, true, false, [], ◌∷◌, ◌++◌, arith, eq_iff, str_eq,
  Bool-cases,
}
use multi_platform_crypto_tr.Base.Result.{ok}
use multi_platform_crypto_tr.Api.ClientAddress.{split_all, stripped, hops_of, is_empty}
use multi_platform_crypto_tr.Api.ClientAddress.Forged.{append, hops_of-append}
use multi_platform_crypto_tr.Config.{
  Settings, is_production, encryption_keys, len, missing, validate_runtime, cipher_keys,
}
use multi_platform_crypto_tr.Market.{is_in}
use multi_platform_crypto_tr.Security.Words.{Words}

long_not_empty : (t : String) → 32 ≤ len t → str_eq t "" ≡ false
long_not_empty t h = elim (Bool-cases (str_eq t "")) [
  | inl e ↦ absurd (omega (arith, h, ap len ((eq_iff t "").0 e)))
  | inr e ↦ e
]

-- In production, the process starts exactly if there is a key to encrypt with, the secret of the
-- tokens has at least 32 characters, debugging is off and no origin is the wildcard; then the cipher
-- uses the configured keys, never one that was drawn.
pub starts_in_production :
    (w : Words) (s : Settings) (drawn : String)
    → is_production s ≡ true
    → ((validate_runtime w s ≡ ok tt) ↔ (
        (is_empty (encryption_keys w s) ≡ false)
        × (32 ≤ len s.jwt_secret_key)
        × (s.app_debug ≡ false)
        × (is_in "*" s.cors_origins ≡ false)))
      × (validate_runtime w s ≡ ok tt → cipher_keys w s drawn ≡ ok (encryption_keys w s))
unfolding validate_runtime missing cipher_keys
starts_in_production w s drawn h =
    let no_key = is_empty (encryption_keys w s) in
    let secret = s.jwt_secret_key in
    let origin = is_in "*" s.cors_origins in
    let long = long_not_empty secret in
    elim (Bool-cases no_key) [
      | inl none_left ↦ (
        (λ e. ground (arith, h, none_left, e), λ (k, r, d, o). ground (arith, none_left, k)),
        λ e. ground (arith, h, none_left, e),
      )
      | inr keyed ↦ (
        (
          λ e. (
            keyed,
            ground (arith, h, keyed, e),
            ground (arith, h, keyed, e),
            ground (arith, h, keyed, e),
          ),
          λ (k, r, d, o). ground (arith, h, keyed, r, d, o, long r),
        ),
        λ e. ground (arith, keyed),
      )
    ]

-- A key that is put in front of the configured ones, and a comma after it, becomes the first key, with
-- which the cipher encrypts, and all keys from before are kept in their order. The key has no comma
-- and does not consist of white space.
pub prepended_key_is_active :
    (w : Words) (s : Settings) (key : String)
    → split_all b',' key ≡ (key, [])
    → str_eq (w.strip key) "" ≡ false
    → encryption_keys w
        (record s { master_encryption_key = append key (append "," s.master_encryption_key) })
      ≡ w.strip key ∷ encryption_keys w s
unfolding encryption_keys hops_of stripped
prepended_key_is_active w s key whole filled =
    hops_of-append w key s.master_encryption_key
    ∙ ap (λ parts. stripped w (parts.0 ∷ parts.1) ++ hops_of w s.master_encryption_key) whole
    ∙ ground (arith, filled)
