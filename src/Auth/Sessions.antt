-- ===== src/Auth/Sessions.antt =====
-- `refresh`, `_invalidate_sessions` and `logout` of app/services/auth_service.py.
pub mod Rotation
mod Tests
use multi_platform_crypto_tr.Base.{
  ℕ, ◌+◌, String, Bool, true, false, not, Option, none, some, ltb, if◌then◌else◌,
}
use multi_platform_crypto_tr.Base.Result.{Result, ok, err}
use multi_platform_crypto_tr.Exceptions.{AppError, authentication_error}
use multi_platform_crypto_tr.Security.TokenStore
use multi_platform_crypto_tr.Security.TokenStore.{is_revoked, revoke}
use multi_platform_crypto_tr.Security.Tokens.{
  TokenClaims, TokenPair, refresh, issue_pair, decode, remaining_ttl,
}
use multi_platform_crypto_tr.Auth.State.{
  User, World, Services, Request, Action, pure, raise, lift, ◌>>=◌, ◌>>◌, modify, audit_record,
  commit, save_user, get_user_by_id,
}

-- `_invalidate_sessions`
abbrev pub invalidate_sessions : User → Action (Unit {0})
invalidate_sessions user = do
  save_user (record user { token_generation = user.token_generation + 1 })
  audit_record "auth.sessions_invalidated" (some user.id) none

-- `token_store.is_revoked(jti)`, which may drop an expired identifier
asks_revoked : Request → String → Action Bool
asks_revoked req jti w =
    let (revoked, store) = is_revoked req.monotonic jti w.revoked in
    (ok revoked, record w { revoked = store })

-- `token_store.revoke(jti, ttl_seconds=_remaining_ttl(expires_at))`
abbrev pub revoke_claims : Request → TokenClaims → Action (Unit {0})
revoke_claims req claims = modify λ w. record w {
  revoked = revoke req.monotonic claims.jti (remaining_ttl claims.expires_at req.wall) w.revoked;
}

-- What `refresh` does for the user that the token names.
unfoldable pub rotate : Services → Request → TokenClaims → Option User → Action TokenPair
unfolding asks_revoked
rotate svc req claims none = raise authentication_error
rotate svc req claims (some user) = if not user.is_active then raise authentication_error else (do
  revoked ← asks_revoked req claims.jti
  if revoked
      then (do invalidate_sessions user; commit; raise authentication_error)
      else if ltb claims.generation user.token_generation
      then raise authentication_error
      else (do
        revoke_claims req claims
        pure (
            issue_pair svc.tokens req.wall req.jti_access req.jti_refresh user.id user.role
              user.token_generation)))

unfoldable pub refresh_session : Services → Request → String → Action TokenPair
refresh_session svc req refresh_token = do
  claims ← lift (decode svc.tokens req.wall refresh_token refresh)
  user ← get_user_by_id claims.subject
  rotate svc req claims user

log_out_with : Request → Result AppError TokenClaims → Action (Unit {0})
log_out_with req (err e) = pure tt
log_out_with req (ok claims) = do
  revoke_claims req claims
  audit_record "auth.logout" (some claims.subject) none

unfoldable pub logout : Services → Request → String → Action (Unit {0})
unfolding log_out_with
logout svc req refresh_token = log_out_with req (decode svc.tokens req.wall refresh_token refresh)
