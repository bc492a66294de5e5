-- ===== src/Security/Tokens/Issued.antt =====
-- What becomes of a token that the service has issued.
use multi_platform_crypto_tr.Base.{
  ℕ, ◌+◌, ◌/◌, ◌≤◌, ◌≡◌, String, arith, ltb, Bool-cases, inl, inr, if◌then◌else◌,
}
use multi_platform_crypto_tr.Base.Result.{ok, err}
use multi_platform_crypto_tr.Exceptions.{invalid_token}
use multi_platform_crypto_tr.Security.Time.{second, seconds}
use multi_platform_crypto_tr.Security.Tokens.{
  Payload, access, refresh, IsSigned, TokenPair, TokenService, claims_at, issue_pair, decode,
}

module _ (s : TokenService) (now later : ℕ) (ja jr subject role : String) (generation : ℕ) where
  abbrev pub pair : TokenPair
  pair = issue_pair s now ja jr subject role generation

  -- At any time from then on, a refresh token of the pair is refused as an access token. Before its
  -- expiry, which is its time to live after the whole second below its issue, it decodes as a refresh
  -- token to the subject, role, identifier and generation that it was issued with; from its expiry on
  -- it is refused.
  pub refresh_token_decodes :
      IsSigned s.jwt (claims_at now subject role refresh s.refresh_ttl generation jr)
      → now ≤ later
      → (decode s later pair.refresh_token refresh ≡ (
          if ltb later (seconds ((now + seconds s.refresh_ttl) / second))
          then ok (record {
            subject = subject;
            role = role;
            token_type = refresh;
            jti = jr;
            expires_at = (now + seconds s.refresh_ttl) / second;
            issued_at = now / second;
            generation = generation;
          })
          else err invalid_token))
        × (decode s later pair.refresh_token access ≡ err invalid_token)
  unfolding issue_pair decode claims_at
  refresh_token_decodes laws h =
      let p : Payload = claims_at now subject role refresh s.refresh_ttl generation jr in
      elim (Bool-cases (ltb later (seconds p.exp))) [
        | inl lt ↦ ground (arith, laws.decodes later (omega arith) (ground arith))
        | inr done ↦ ground (arith, laws.expires later (ground arith))
      ]
