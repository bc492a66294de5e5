-- ===== src/Security/Tokens.antt =====
-- `TokenService` of app/security/tokens.py. The JWT library, with its secret and algorithm, is an
-- argument; clock readings are in nanoseconds, claims in whole seconds.
pub mod Issued
use multi_platform_crypto_tr.Base.{
  ℕ, ◌+◌, ◌-◌, ◌/◌, ◌≤◌, ◌<◌, ◌≡◌, String, Bool, true, false, not, Option, none, some, max,
  if◌then◌else◌,
}
use multi_platform_crypto_tr.Base.Result.{Result, ok, err}
use multi_platform_crypto_tr.Exceptions.{AppError, invalid_token}
use multi_platform_crypto_tr.Security.Time.{second, seconds}

pub data TokenType : Type 0 where
  access refresh : TokenType

-- The claims of a token. All are written by `_encode`, so none is missing in a token of this service.
pub record Payload : Type 0 where
  pub sub : String
  pub role : String
  pub type : TokenType
  pub jti : String
  pub gen : ℕ
  pub iat : ℕ
  pub nbf : ℕ
  pub exp : ℕ

-- `jwt.encode`, and `jwt.decode` at a reading of the clock: none if it raises.
pub record Jwt : Type 0 where
  pub encode : Payload → String
  pub decode : ℕ → String → Option Payload

-- What PyJWT documents, for the claims `p`: their token decodes to them from `nbf` on and before
-- `exp`, and not from `exp` on.
pub record IsSigned (jwt : Jwt) (p : Payload) : Type 0 where
  pub decodes :
      (now : ℕ) → seconds p.nbf ≤ now → now < seconds p.exp → jwt.decode now (jwt.encode p) ≡ some p
  pub expires : (now : ℕ) → seconds p.exp ≤ now → jwt.decode now (jwt.encode p) ≡ none

pub record TokenPair : Type 0 where
  pub access_token : String
  pub refresh_token : String
  pub expires_in : ℕ

pub record TokenClaims : Type 0 where
  pub subject : String
  pub role : String
  pub token_type : TokenType
  pub jti : String
  pub expires_at : ℕ  -- in seconds
  pub issued_at : ℕ
  pub generation : ℕ

pub record TokenService : Type 0 where
  pub jwt : Jwt
  pub access_ttl : ℕ  -- in seconds
  pub refresh_ttl : ℕ

-- the payload that `_encode` signs
unfoldable pub claims_at : ℕ → String → String → TokenType → ℕ → ℕ → String → Payload
claims_at now subject role type ttl generation jti = record {
  sub = subject;
  role = role;
  type = type;
  jti = jti;
  gen = generation;
  iat = now / second;
  nbf = now / second;
  exp = (now + seconds ttl) / second;
}

-- `issue_pair`, with one reading of the clock; the two identifiers are the ones that `uuid4` drew
unfoldable pub issue_pair : TokenService → ℕ → String → String → String → String → ℕ → TokenPair
issue_pair s now jti_access jti_refresh subject role generation = record {
  access_token =
      s.jwt.encode (claims_at now subject role access s.access_ttl generation jti_access);
  refresh_token =
      s.jwt.encode (claims_at now subject role refresh s.refresh_ttl generation jti_refresh);
  expires_in = (now + seconds s.access_ttl - now) / second;
}

abbrev same_type : TokenType → TokenType → Bool
same_type access access = true
same_type refresh refresh = true
same_type _ _ = false

abbrev claims_of : Payload → TokenClaims
claims_of p = record {
  subject = p.sub;
  role = p.role;
  token_type = p.type;
  jti = p.jti;
  expires_at = p.exp;
  issued_at = p.iat;
  generation = p.gen;
}

typed : Option Payload → TokenType → Result AppError TokenClaims
typed none expected = err invalid_token
typed (some p) expected = if same_type p.type expected then ok (claims_of p) else err invalid_token

-- `decode(token, expected_type=...)`
unfoldable pub decode : TokenService → ℕ → String → TokenType → Result AppError TokenClaims
unfolding typed
decode s now token expected = typed (s.jwt.decode now token) expected

-- `_remaining_ttl` of app/services/auth_service.py
unfoldable pub remaining_ttl : ℕ → ℕ → ℕ
remaining_ttl expires_at now = max 1 ((seconds expires_at - now) / second)
