-- ===== src/Api/CurrentUser/Admitted.antt =====
-- What the tokens of a login open.
use multi_platform_crypto_tr.Base.{
  ℕ, ◌+◌, ◌/◌, ◌≤◌, ◌≡◌, String, arith, ltb, Bool-cases, inl, inr, if◌then◌else◌,
}
use multi_platform_crypto_tr.Base.Result.{ok, err}
use multi_platform_crypto_tr.Exceptions.{invalid_token, permission_denied}
use multi_platform_crypto_tr.Security.Rbac.{Permission, has_permission, require}
use multi_platform_crypto_tr.Security.Time.{second, seconds}
use multi_platform_crypto_tr.Security.Tokens.{
  Payload, access, refresh, IsSigned, TokenService, claims_at, issue_pair, decode,
}
use multi_platform_crypto_tr.Security.Tokens.Issued.{pair, refresh_token_decodes}
use multi_platform_crypto_tr.Api.CurrentUser.{get_current_user, guarded}

module _ (s : TokenService) (now later : ℕ) (ja jr subject role : String) (generation : ℕ) where
  -- A route that requires a permission, asked with the tokens of a pair at any time from their issue
  -- on: the access token opens it before its expiry, for the user and the role that it was issued
  -- for, and exactly if that role holds the permission; from its expiry on it is refused as invalid,
  -- and so is the refresh token at all times.
  pub access_token_admits :
      (permission : Permission)
      → IsSigned s.jwt (claims_at now subject role access s.access_ttl generation ja)
      → IsSigned s.jwt (claims_at now subject role refresh s.refresh_ttl generation jr)
      → now ≤ later
      → (guarded s later permission (pair s now later ja jr subject role generation).access_token
          ≡ (if ltb later (seconds ((now + seconds s.access_ttl) / second))
              then (if has_permission role permission
                  then ok (record { id = subject; role = role })
                  else err permission_denied)
              else err invalid_token))
        × (guarded s later permission (pair s now later ja jr subject role generation).refresh_token
            ≡ err invalid_token)
  unfolding guarded get_current_user issue_pair decode claims_at require
  access_token_admits permission laws refreshing h =
      let p : Payload = claims_at now subject role access s.access_ttl generation ja in
      let refused =
        (refresh_token_decodes s now later ja jr subject role generation refreshing h).1 in
      elim (Bool-cases (ltb later (seconds p.exp))) [
        | inl lt ↦ ground (arith, refused, laws.decodes later (omega arith) (ground arith))
        | inr done ↦ ground (arith, refused, laws.expires later (ground arith))
      ]
