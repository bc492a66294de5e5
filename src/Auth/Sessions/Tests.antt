-- ===== src/Auth/Sessions/Tests.antt =====
-- Witnesses and runs for refresh tokens.
use multi_platform_crypto_tr.Base.{◌≤◌, ◌<◌, ◌↔◌, ◌≡◌, refl, true, false, [], ◌∷◌, arith}
use multi_platform_crypto_tr.Base.Dict.{lookup}
use multi_platform_crypto_tr.Base.Result.{ok, err}
use multi_platform_crypto_tr.Exceptions.{authentication_error}
use multi_platform_crypto_tr.Security.TokenStore.{is_revoked}
use multi_platform_crypto_tr.Security.Tokens.{TokenPair, refresh, issue_pair, decode}
use multi_platform_crypto_tr.Auth.State.{World, Request, in_request}
use multi_platform_crypto_tr.Auth.Samples.{
  services, request, first_request, late_request, last_request, alice, claims, world_of,
}
use multi_platform_crypto_tr.Auth.Sessions.{refresh_session, rotate}
use multi_platform_crypto_tr.Auth.Sessions.Rotation.{
  Names, bumped, reuse_ends_sessions, second_use_refused, late_reuse_accepted,
}

abbrev world : World
world = world_of alice

-- `r1` was used, and is held until second 110.
abbrev used : World
used = record world { revoked = ("j1", 110000000000) ∷ [] }

named : (req : Request) → Names services req "r1" world claims alice
unfolding decode lookup
named req = (refl, refl)

named_used : (req : Request) → Names services req "r1" used claims alice
unfolding decode lookup
named_used req = (refl, refl)

decodes : decode services.tokens late_request.wall "r1" refresh ≡ ok claims
unfolding decode
decodes = refl

not_revoked : (is_revoked request.monotonic "j1" world.revoked).0 ≡ false
unfolding is_revoked lookup
not_revoked = refl

used_is_revoked : (is_revoked request.monotonic "j1" used.revoked).0 ≡ true
unfolding is_revoked lookup
used_is_revoked = refl

reuse_ends_sessions_example :
    (in_request (refresh_session services request "r1") used ≡ (
      err authentication_error,
      bumped services request "r1" claims alice used (named_used request),
    ))
    × ((refresh_session services late_request "r1"
          (bumped services request "r1" claims alice used (named_used request))).0
        ≡ err authentication_error)
reuse_ends_sessions_example =
    reuse_ends_sessions services request "r1" claims alice used (named_used request) refl
      used_is_revoked late_request "r1" claims decodes refl (omega arith)

-- The world after a first use of `r1` with 39 and a half seconds to go.
abbrev exchanged : World
exchanged = (refresh_session services first_request "r1" world).1

abbrev pair : TokenPair
pair = issue_pair services.tokens first_request.wall "a5" "j5" "u1" "trader" 0

exchange : refresh_session services first_request "r1" world ≡ (ok pair, exchanged)
unfolding refresh_session rotate decode is_revoked lookup
exchange = refl

named_again : (req : Request) → Names services req "r1" exchanged claims alice
unfolding decode refresh_session rotate is_revoked lookup
named_again req = (refl, refl)

second_use_refused_example : in_request (refresh_session services late_request "r1") exchanged ≡ (
  err authentication_error,
  bumped services late_request "r1" claims alice exchanged (named_again late_request),
)
second_use_refused_example =
    second_use_refused services first_request late_request "r1" claims alice alice world exchanged
      exchanged pair (named first_request) tt exchange (named_again late_request) refl (omega arith)
      refl (omega arith)

late_reuse_accepted_example :
    (((refresh_session services last_request "r1" exchanged).0
        ≡ ok (issue_pair services.tokens last_request.wall "a4" "j4" "u1" "trader" 0))
      ↔ (99500000000 ≤ 99750000000))
    × (99500000000 ≤ 99750000000 → 99750000000 < 100000000000 → 100000000000 < 100750000000)
late_reuse_accepted_example =
    late_reuse_accepted services first_request last_request "r1" claims alice alice world exchanged
      exchanged pair (named first_request) tt exchange (named_again last_request) refl (omega arith)
      refl (omega arith) refl
