-- ===== src/Accounts.antt =====
-- The accounts of the users at exchanges, app/services/account_service.py with the rows of
-- app/models/account.py. The cipher is an argument.
pub mod Credentials
pub mod Owners
mod Tests
use multi_platform_crypto_tr.Base.{
  String, Bool, true, false, not, ◌&&◌, ◌||◌, Option, none, some, List, [], ◌∷◌, str_eq, is_none,
  if◌then◌else◌,
}
use multi_platform_crypto_tr.Base.Dict.{Dict, lookup, insert, erase}
use multi_platform_crypto_tr.Base.Result.{Result, ok, err, map_ok, and_then}
use multi_platform_crypto_tr.Exceptions.{AppError, not_found, validation_error, unhandled}
use multi_platform_crypto_tr.Auth.State.{AuditLog}
use multi_platform_crypto_tr.Exchange.Registry.{ExchangeInfo, get_info}
use multi_platform_crypto_tr.Exchange.Factory.{ExchangeCredentials, Policy, Adapter, build}
use multi_platform_crypto_tr.Security.Words.{Words}

pub record ExchangeAccount : Type 0 where
  pub user_id : String
  pub exchange_id : String
  pub label : String
  pub market_type : String
  pub is_paper : Bool
  pub api_key_enc : Option String
  pub api_secret_enc : Option String
  pub passphrase_enc : Option String
  pub is_active : Bool

-- The account rows by their id, and the audit trail with the latest entry first.
pub record Book : Type 0 where
  pub accounts : Dict ExchangeAccount
  pub audit : List AuditLog

-- `SecretCipher` of app/security/crypto.py
pub record Cipher : Type 0 where
  pub encrypt : String → String
  pub decrypt : String → Result AppError String

abbrev audited : String → String → Book → Book
audited action user_id b = record b {
  audit = record { action = action; user_id = some user_id; ip_address = none } ∷ b.audit;
}

-- What a request for a new account gives, with the id that the row draws.
pub record NewAccount : Type 0 where
  pub id : String
  pub user_id : String
  pub exchange_id : String
  pub label : String
  pub market_type : String

-- `uq_account_label`: whether a row has this user, exchange and label
unfoldable pub is_taken : NewAccount → Dict ExchangeAccount → Bool
is_taken n [] = false
is_taken n ((id, a) ∷ rest) =
    (str_eq a.user_id n.user_id && str_eq a.exchange_id n.exchange_id && str_eq a.label n.label)
    || is_taken n rest

-- A row that breaks the constraint raises in `flush`, an error that the application does not handle.
unfoldable pub create_paper_account : NewAccount → Book → Result AppError ExchangeAccount × Book
create_paper_account n b =
    let account : ExchangeAccount = record {
      user_id = n.user_id;
      exchange_id = n.exchange_id;
      label = n.label;
      market_type = n.market_type;
      is_paper = true;
      api_key_enc = none;
      api_secret_enc = none;
      passphrase_enc = none;
      is_active = true;
    } in
    if is_taken n b.accounts then (err unhandled, b) else (
      ok account,
      audited "account.create_paper" n.user_id
          (record b { accounts = insert n.id account b.accounts }),
    )

-- a text that is None or empty is falsy
abbrev pub truthy : Option String → Option String
truthy none = none
truthy (some s) = if str_eq s "" then none else some s

abbrev pub encrypted : Cipher → Option String → Option String
encrypted cipher none = none
encrypted cipher (some s) = some (cipher.encrypt s)

unfoldable pub live_account :
    Cipher → NewAccount → String → String → Option String → ExchangeAccount
live_account cipher n api_key api_secret passphrase = record {
  user_id = n.user_id;
  exchange_id = n.exchange_id;
  label = n.label;
  market_type = n.market_type;
  is_paper = false;
  api_key_enc = some (cipher.encrypt api_key);
  api_secret_enc = some (cipher.encrypt api_secret);
  passphrase_enc = encrypted cipher (truthy passphrase);
  is_active = true;
}

-- the checks of `create_live_account`
abbrev pub refused_by : Option ExchangeInfo → Option String → Bool
refused_by none passphrase = true
refused_by (some info) passphrase = info.requires_passphrase && is_none (truthy passphrase)

unfoldable pub create_live_account :
    Words
    → Cipher
    → NewAccount
    → String
    → String
    → Option String
    → Book
    → Result AppError ExchangeAccount × Book
create_live_account w cipher n api_key api_secret passphrase b =
    let account = live_account cipher n api_key api_secret passphrase in
    if refused_by (get_info w n.exchange_id) passphrase
    then (err validation_error, b)
    else if is_taken n b.accounts
    then (err unhandled, b)
    else (
      ok account,
      audited "account.create_live" n.user_id
          (record b { accounts = insert n.id account b.accounts }),
    )

-- `get_for_user`
abbrev of_user : Option ExchangeAccount → String → Result AppError ExchangeAccount
of_user none user_id = err not_found
of_user (some account) user_id =
    if str_eq account.user_id user_id then ok account else err not_found

unfoldable pub get_account : String → String → Book → Result AppError ExchangeAccount
get_account account_id user_id b = of_user (lookup account_id b.accounts) user_id

unfoldable pub list_accounts : String → Dict ExchangeAccount → List ExchangeAccount
list_accounts user_id [] = []
list_accounts user_id ((id, account) ∷ rest) =
    let others = list_accounts user_id rest in
    if str_eq account.user_id user_id then account ∷ others else others

unfoldable pub delete_account : String → String → Book → Result AppError (Unit {0}) × Book
delete_account account_id user_id b = elim (get_account account_id user_id b) [
  | err e ↦ (err e, b)
  | ok account ↦ (
    ok tt,
    audited "account.delete" user_id (record b { accounts = erase account_id b.accounts }),
  )
]

abbrev opened_passphrase : Cipher → Option String → Result AppError (Option String)
opened_passphrase cipher none = ok none
opened_passphrase cipher (some s) = map_ok some (cipher.decrypt s)

abbrev decrypt_with :
    Cipher
    → Option String
    → Option String
    → Option String
    → Result AppError (Option ExchangeCredentials)
decrypt_with cipher (some key) (some secret) passphrase = and_then (cipher.decrypt key) (λ api_key.
    and_then (cipher.decrypt secret) (λ api_secret.
      map_ok
        (λ p. some (record {
          api_key = api_key;
          api_secret = api_secret;
          passphrase = p;
          subaccount = none;
          testnet = true;
        }))
        (opened_passphrase cipher (truthy passphrase))))
decrypt_with cipher _ _ passphrase = ok none

-- `_decrypt_credentials`, in the order in which the code decrypts
unfoldable pub decrypt_credentials :
    Cipher → ExchangeAccount → Result AppError (Option ExchangeCredentials)
decrypt_credentials cipher a =
    if a.is_paper
    then ok none
    else decrypt_with cipher (truthy a.api_key_enc) (truthy a.api_secret_enc) a.passphrase_enc

-- `_is_paper_effective`
unfoldable pub is_paper_effective : Policy → ExchangeAccount → Bool
is_paper_effective policy a = a.is_paper || not policy.allow_live_trading

unfoldable pub build_adapter :
    {L : Type 0}
    → Words
    → Cipher
    → Policy
    → ExchangeAccount
    → Option L
    → Result AppError (Adapter L)
build_adapter w cipher policy a ledger =
    and_then (decrypt_credentials cipher a)
      (λ credentials. build w policy a.exchange_id credentials a.is_paper a.market_type ledger)
