-- ===== src/Auth/Sessions/Rotation.antt =====
-- A refresh token is good for one use, and a second use ends every session of its user.
use multi_platform_crypto_tr.Base.{
  ℕ, ◌+◌, ◌-◌, ◌/◌, ◌≤◌, ◌<◌, ◌≡◌, ◌↔◌, ◌⊎◌, inl, inr, String, true, false, none, some, ◌∷◌, arith,
  eq_iff, Bool-cases, ltb, max,
}
use multi_platform_crypto_tr.Base.Dict.{lookup, insert, lookup-insert_self, HasUniqueKeys}
use multi_platform_crypto_tr.Base.Result.{ok, err}
use multi_platform_crypto_tr.Exceptions.{authentication_error}
use multi_platform_crypto_tr.Security.Time.{second, seconds}
use multi_platform_crypto_tr.Security.TokenStore.{is_revoked, revoke}
use multi_platform_crypto_tr.Security.TokenStore.Revocation.{revoke_exact, is_revoked-HasUniqueKeys}
use multi_platform_crypto_tr.Security.Tokens.{
  TokenClaims, TokenPair, refresh, issue_pair, decode, remaining_ttl,
}
use multi_platform_crypto_tr.Auth.State.{User, Db, World, Services, Request, in_request}
use multi_platform_crypto_tr.Auth.Sessions.{rotate, refresh_session}

module _ (svc : Services) where
  abbrev pub Names : Request → String → World → TokenClaims → User → Type 0
  Names req token w claims user =
      (decode svc.tokens req.wall token refresh ≡ ok claims)
      × (lookup claims.subject w.db.users ≡ some user)

  module _ (req : Request) (token : String) (claims : TokenClaims) (user : User) (w : World)
      (names : Names req token w claims user) where
    -- A refresh request whose token names a stored user is answered with tokens exactly if the user
    -- is active, the token is not revoked, and its generation is not below the user's.
    pub refresh_exact :
        (((refresh_session svc req token w).0
            ≡ ok (
                issue_pair svc.tokens req.wall req.jti_access req.jti_refresh user.id user.role
                  user.token_generation))
          ↔ ((user.is_active ≡ true)
              × ((is_revoked req.monotonic claims.jti w.revoked).0 ≡ false)
              × (user.token_generation ≤ claims.generation)))
        × (((refresh_session svc req token w).0
              ≡ ok (
                  issue_pair svc.tokens req.wall req.jti_access req.jti_refresh user.id user.role
                    user.token_generation))
            ⊎ ((refresh_session svc req token w).0 ≡ err authentication_error))
    unfolding refresh_session rotate
    refresh_exact = ground (arith, names)

    abbrev pub bumped : World
    bumped =
        let db : Db = record {
          users =
              insert user.id (record user { token_generation = user.token_generation + 1 })
                w.db.users;
          audit =
              record {
                action = "auth.sessions_invalidated";
                user_id = some user.id;
                ip_address = none;
              }
              ∷ w.db.audit;
        } in
        record w { db = db; committed = db }

    reuse_bumps :
        user.is_active ≡ true
        → (is_revoked req.monotonic claims.jti w.revoked).0 ≡ true
        → in_request (refresh_session svc req token) w ≡ (err authentication_error, bumped)
    unfolding refresh_session rotate is_revoked
    reuse_bumps active revoked = ground (arith, names)

    -- A second use of a revoked token ends every session of its user: the request is refused, the
    -- generation of the user that it raises and its audit entry outlive the rollback, and from then
    -- on every refresh token of the user with the old generation, or an earlier one, is refused.
    pub reuse_ends_sessions :
        user.is_active ≡ true
        → (is_revoked req.monotonic claims.jti w.revoked).0 ≡ true
        → (next : Request) (other : String) (c : TokenClaims)
        → decode svc.tokens next.wall other refresh ≡ ok c
        → c.subject ≡ user.id
        → c.generation ≤ user.token_generation
        → (in_request (refresh_session svc req token) w ≡ (err authentication_error, bumped))
          × ((refresh_session svc next other bumped).0 ≡ err authentication_error)
    unfolding refresh_session rotate
    reuse_ends_sessions active revoked next other c decoded same old = (
      reuse_bumps active revoked,
      ground (
        arith,
        decoded,
        same,
        lookup-insert_self user.id (record user { token_generation = user.token_generation + 1 })
            w.db.users,
      ),
    )

    -- What a request that was answered with tokens has changed.
    rotated :
        (pair : TokenPair) (w' : World)
        → refresh_session svc req token w ≡ (ok pair, w')
        → (w'.db ≡ w.db)
          × (w'.revoked
              ≡ revoke req.monotonic claims.jti
                  (remaining_ttl claims.expires_at req.wall)
                  (is_revoked req.monotonic claims.jti w.revoked).1)
    unfolding refresh_session rotate
    rotated pair w' done = elim (Bool-cases user.is_active) [
      | inl active ↦ elim (Bool-cases (is_revoked req.monotonic claims.jti w.revoked).0) [
        | inl revoked ↦ ground (arith, names)
        | inr free ↦ elim (Bool-cases (ltb claims.generation user.token_generation)) [
          | inl old ↦ ground (arith, names)
          | inr current ↦ ground (arith, names)
        ]
      ]
      | inr disabled ↦ ground (arith, names)
    ]

  -- Two requests with one refresh token, the first of which was answered with tokens.
  module _ (req later : Request) (token : String) (claims : TokenClaims) (user again : User)
      (w w' v : World) (pair : TokenPair) (names : Names req token w claims user)
      (unique : HasUniqueKeys w.revoked) (done : refresh_session svc req token w ≡ (ok pair, w'))
      (names_again : Names later token v claims again) (kept : v.revoked ≡ w'.revoked)
      (order : req.monotonic ≤ later.monotonic) where
    -- The whole seconds that the token had left at its first use, and at least one.
    abbrev pub whole_seconds_left : ℕ
    whole_seconds_left = max 1 ((seconds claims.expires_at - req.wall) / second)

    held :
        (is_revoked later.monotonic claims.jti v.revoked).0
        ≡ ltb later.monotonic (req.monotonic + seconds whole_seconds_left)
    unfolding remaining_ttl
    held =
        let (same, e) = rotated req token claims user w names pair w' done in
        ground (
          arith,
          e,
          eq_iff claims.jti claims.jti,
          revoke_exact req.monotonic later.monotonic (remaining_ttl claims.expires_at req.wall)
              claims.jti claims.jti (is_revoked req.monotonic claims.jti w.revoked).1
              (is_revoked-HasUniqueKeys req.monotonic claims.jti w.revoked unique) order,
        )

    -- After a first use that was answered with tokens, a second request with the same refresh token
    -- is refused, and raises the generation of the active user for good, if it comes before the end
    -- of the whole seconds that the token had left at its first use, or of one second if it had less.
    -- No identifier is revoked, or dropped from the revoked ones, between the two.
    pub second_use_refused :
        again.is_active ≡ true
        → later.monotonic
          < req.monotonic + seconds (max 1 ((seconds claims.expires_at - req.wall) / second))
        → in_request (refresh_session svc later token) v
          ≡ (err authentication_error, bumped later token claims again v names_again)
    second_use_refused active early =
        reuse_bumps later token claims again v names_again active (ground (arith, held))

    -- After a first use that was answered with tokens, and with clocks that advance alike and nothing
    -- revoked in between, a second request with the same refresh token, which still decodes, for an
    -- active user whose generation is not above that of the token, is answered with tokens exactly
    -- from the end of the whole seconds that the token had left at its first use, or of one second if
    -- it had less. For a token that has not expired this is within the last second of its life: the
    -- part of a second that the whole seconds leave out is enough to use a token twice.
    pub late_reuse_accepted :
        again.is_active ≡ true
        → again.token_generation ≤ claims.generation
        → later.wall + req.monotonic ≡ req.wall + later.monotonic
        → (((refresh_session svc later token v).0
              ≡ ok (
                  issue_pair svc.tokens later.wall later.jti_access later.jti_refresh again.id
                    again.role again.token_generation))
            ↔ (req.wall + seconds (max 1 ((seconds claims.expires_at - req.wall) / second))
                ≤ later.wall))
          × (req.wall + seconds (max 1 ((seconds claims.expires_at - req.wall) / second))
                ≤ later.wall
              → later.wall < seconds claims.expires_at
              → seconds claims.expires_at < later.wall + second)
    late_reuse_accepted active current alike =
        let exact = (refresh_exact later token claims again v names_again).0 in
        (
          (
            λ answered.
                let (on, free, fresh) = exact.0 answered in ground (arith, held, free, alike),
            λ late. exact.1 (active, ground (arith, held, alike, late), current),
          ),
          λ late valid. omega (arith, late, valid),
        )
