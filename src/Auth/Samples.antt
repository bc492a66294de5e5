-- ===== src/Auth/Samples.antt =====
-- The services, the user and the requests that the runs of the authentication service are made with.
use multi_platform_crypto_tr.Base.{
  ℕ, String, ◌/◌, ◌==◌, str_eq, false, true, none, some, [], ◌∷◌, if◌then◌else◌,
}
use multi_platform_crypto_tr.Base.Result.{ok}
use multi_platform_crypto_tr.Security.Words.{plain}
use multi_platform_crypto_tr.Security.Tokens.{Payload, TokenClaims, refresh}
use multi_platform_crypto_tr.Auth.State.{User, Db, World, Services, Request}

-- the code of the step from second 60 to 90, and of any other step
abbrev pub code_at : String → ℕ → String
code_at secret at = if at / 30 == 2 then "123456" else "000000"

abbrev pub payload : Payload
payload = record {
  sub = "u1";
  role = "trader";
  type = refresh;
  jti = "j1";
  gen = 0;
  iat = 0;
  nbf = 0;
  exp = 100;
}

abbrev pub claims : TokenClaims
claims = record {
  subject = "u1";
  role = "trader";
  token_type = refresh;
  jti = "j1";
  expires_at = 100;
  issued_at = 0;
  generation = 0;
}

-- Passwords are their own hashes, and the one token that decodes is "r1".
abbrev pub services : Services
services = record {
  words = plain;
  verify = λ hash password. str_eq hash password;
  needs_rehash = λ hash. false;
  hash = λ password. password;
  encrypt = λ s. s;
  decrypt = λ s. ok s;
  otp = record { code_at = code_at; interval = 30 };
  valid_window = 1;
  tokens = record {
    jwt = record {
      encode = λ p. p.jti;
      decode = λ now token. if str_eq token "r1" then some payload else none;
    };
    access_ttl = 900;
    refresh_ttl = 100;
  };
}

-- a request at second 60
abbrev pub request : Request
request = record {
  wall = 60000000000;
  monotonic = 60000000000;
  jti_access = "a2";
  jti_refresh = "j2";
  ip = some "::1";
}

-- one half a second later
abbrev pub first_request : Request
first_request = record {
  wall = 60500000000;
  monotonic = 60500000000;
  jti_access = "a5";
  jti_refresh = "j5";
  ip = none;
}

-- one at second 99 and a quarter
abbrev pub late_request : Request
late_request = record {
  wall = 99250000000;
  monotonic = 99250000000;
  jti_access = "a3";
  jti_refresh = "j3";
  ip = none;
}

-- one half a second later, a quarter of a second before the token expires
abbrev pub last_request : Request
last_request = record {
  wall = 99750000000;
  monotonic = 99750000000;
  jti_access = "a4";
  jti_refresh = "j4";
  ip = none;
}

abbrev pub alice : User
alice = record {
  id = "u1";
  email = "alice";
  password_hash = "secret";
  role = "trader";
  is_active = true;
  totp_enabled = false;
  totp_secret_enc = none;
  totp_last_counter = none;
  token_generation = 0;
}

abbrev pub guarded : User
guarded = record alice { totp_enabled = true; totp_secret_enc = some "seed" }

abbrev pub world_of : User → World
world_of user =
    let db : Db = record { users = (user.id, user) ∷ []; audit = [] } in
    record {
      db = db;
      committed = db;
      throttle = record { max_attempts = 2; lockout_seconds = 300; entries = [] };
      revoked = [];
    }
