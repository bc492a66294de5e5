-- ===== src/Api/CurrentUser/Tests.antt =====
-- Witness for the guard of a route.
use multi_platform_crypto_tr.Base.{◌≡◌, none, some, arith, ltb, str_eq, if◌then◌else◌}
use multi_platform_crypto_tr.Base.Result.{ok, err}
use multi_platform_crypto_tr.Exceptions.{invalid_token}
use multi_platform_crypto_tr.Security.Rbac.{order_create, has_permission}
use multi_platform_crypto_tr.Security.Time.{seconds}
use multi_platform_crypto_tr.Security.Tokens.{
  Payload, TokenType, Jwt, TokenService, access, refresh, IsSigned, claims_at, issue_pair,
}
use multi_platform_crypto_tr.Api.CurrentUser.{guarded}
use multi_platform_crypto_tr.Api.CurrentUser.Admitted.{access_token_admits}

abbrev payload : TokenType → Payload
payload access = record {
  sub = "u1";
  role = "trader";
  type = access;
  jti = "a1";
  gen = 4;
  iat = 5;
  nbf = 5;
  exp = 15;
}
payload refresh = record {
  sub = "u1";
  role = "trader";
  type = refresh;
  jti = "r1";
  gen = 4;
  iat = 5;
  nbf = 5;
  exp = 105;
}

-- A library that knows the two payloads above, and checks their times.
abbrev jwt : Jwt
jwt = record {
  encode = λ p. p.jti;
  decode = λ now token.
      if str_eq token "a1"
      then (if ltb now (seconds 15) then some (payload access) else none)
      else if ltb now (seconds 105)
      then some (payload refresh)
      else none;
}

abbrev service : TokenService
service = record { jwt = jwt; access_ttl = 10; refresh_ttl = 100 }

access-IsSigned : IsSigned jwt (payload access)
access-IsSigned = record {
  decodes = λ now h lt. ground (arith, lt);
  expires = λ now h. ground (arith, h);
}

refresh-IsSigned : IsSigned jwt (payload refresh)
refresh-IsSigned = record {
  decodes = λ now h lt. ground (arith, lt);
  expires = λ now h. ground (arith, h);
}

access_token_admits_example :
    (guarded service 9000000000 order_create "a1" ≡ ok (record { id = "u1"; role = "trader" }))
    × (guarded service 9000000000 order_create "r1" ≡ err invalid_token)
unfolding claims_at issue_pair has_permission
access_token_admits_example =
    access_token_admits service 5300000000 9000000000 "a1" "r1" "u1" "trader" 4 order_create
      access-IsSigned refresh-IsSigned (omega arith)
