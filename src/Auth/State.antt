-- ===== src/Auth/State.antt =====
-- What the authentication service of app/services/auth_service.py works on: the rows that it reads
-- and writes, the transaction of the request, and the stores outside the database.
use multi_platform_crypto_tr.Base.{
  ℕ, String, Bool, Option, none, some, List, [], ◌∷◌, str_eq, if◌then◌else◌,
}
use multi_platform_crypto_tr.Base.Dict.{Dict, lookup, insert}
use multi_platform_crypto_tr.Base.Result.{Result, ok, err}
use multi_platform_crypto_tr.Exceptions.{AppError}
use multi_platform_crypto_tr.Security.Throttle.{Throttle}
use multi_platform_crypto_tr.Security.TokenStore.{TokenStore}
use multi_platform_crypto_tr.Security.Tokens.{TokenService}
use multi_platform_crypto_tr.Security.Totp.{Otp}
use multi_platform_crypto_tr.Security.Words.{Words}

-- `User` of app/models/user.py
pub record User : Type 0 where
  pub id : String
  pub email : String
  pub password_hash : String
  pub role : String
  pub is_active : Bool
  pub totp_enabled : Bool
  pub totp_secret_enc : Option String
  pub totp_last_counter : Option ℕ
  pub token_generation : ℕ

-- `AuditLog` of app/models/audit.py, less its details
pub record AuditLog : Type 0 where
  pub action : String
  pub user_id : Option String
  pub ip_address : Option String

-- Users by id, and the audit trail with the latest entry first.
pub record Db : Type 0 where
  pub users : Dict User
  pub audit : List AuditLog

-- `db` is what the request sees, `committed` what outlives a rollback; the throttle and the revoked
-- tokens are no part of the transaction.
pub record World : Type 0 where
  pub db : Db
  pub committed : Db
  pub throttle : Throttle
  pub revoked : TokenStore

-- The parts that the service is built with: password hashing (Argon2), encryption at rest, one-time
-- codes and tokens. Hashing and encryption are of other libraries.
pub record Services : Type 0 where
  pub words : Words
  pub verify : String → String → Bool  -- `hasher.verify(hash, password)`
  pub needs_rehash : String → Bool
  pub hash : String → String
  pub encrypt : String → String
  pub decrypt : String → Result AppError String
  pub otp : Otp
  pub valid_window : ℕ
  pub tokens : TokenService

-- One request: readings of the two clocks in nanoseconds, and what the random generators draw.
pub record Request : Type 0 where
  pub wall : ℕ
  pub monotonic : ℕ
  pub jti_access : String
  pub jti_refresh : String
  pub ip : Option String

-- A handler: it may raise, and what it wrote is there afterwards.
abbrev pub Action {ℓ} : Type ℓ → Type ℓ
Action A = World → Result AppError A × World

module _ {A : Type 0} where
  abbrev pub pure : A → Action A
  pure a w = (ok a, w)

  abbrev pub raise : AppError → Action A
  raise e w = (err e, w)

  abbrev pub gets : (World → A) → Action A
  gets f w = (ok (f w), w)

  -- a fallible value
  abbrev pub lift : Result AppError A → Action A
  lift r w = (r, w)

infixl 5 ◌>>=◌ ◌>>◌
abbrev pub ◌>>=◌ : {A B : Type 0} → Action A → (A → Action B) → Action B
◌>>=◌ m f w = let (r, w') = m w in elim r [ ok a ↦ f a w' | err e ↦ (err e, w') ]

abbrev pub ◌>>◌ : {A B : Type 0} → Action A → Action B → Action B
m >> k = m >>= λ _. k

abbrev pub modify : (World → World) → Action (Unit {0})
modify f w = (ok tt, f w)

-- `audit.record(action=..., user_id=..., ip_address=...)`
abbrev pub audit_record : String → Option String → Option String → Action (Unit {0})
audit_record action user_id ip = modify λ w. record w {
  db = record w.db {
    audit = record { action = action; user_id = user_id; ip_address = ip } ∷ w.db.audit;
  };
}

-- `_commit_security_event`
abbrev pub commit : Action (Unit {0})
commit = modify λ w. record w { committed = w.db }

-- a write to a row of the session
abbrev pub save_user : User → Action (Unit {0})
save_user user =
    modify λ w. record w { db = record w.db { users = insert user.id user w.db.users } }

-- `users.get(id)`
abbrev pub get_user_by_id : String → Action (Option User)
get_user_by_id id = gets (λ w. lookup id w.db.users)

-- `users.get_by_email(email)`, on the lower-cased email: emails are unique
unfoldable pub find_email : String → Dict User → Option User
find_email email [] = none
find_email email ((id, u) ∷ rest) = if str_eq u.email email then some u else find_email email rest

-- `get_session` of app/database/session.py: commit on a normal return, roll back on an exception.
abbrev pub in_request : {A : Type 0} → Action A → Action A
in_request handler w =
    let (r, w') = handler w in
    elim r [
      | ok a ↦ (ok a, record w' { committed = w'.db })
      | err e ↦ (err e, record w' { db = w'.committed })
    ]
