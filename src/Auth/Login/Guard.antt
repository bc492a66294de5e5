-- ===== src/Auth/Login/Guard.antt =====
-- What stands between a login request and a token.
use multi_platform_crypto_tr.Base.{
  ◌≡◌, refl, ◌⊎◌, inl, inr, String, true, false, Option, none, some, ◌∷◌, arith, Bool-cases,
  Option-cases,
}
use multi_platform_crypto_tr.Base.Result.{Result, ok, err}
use multi_platform_crypto_tr.Exceptions.{AppError, account_locked}
use multi_platform_crypto_tr.Security.Throttle.{is_locked, retry_after}
use multi_platform_crypto_tr.Security.Tokens.{TokenPair, issue_pair}
use multi_platform_crypto_tr.Auth.State.{User, World, Services, Request, find_email, in_request}
use multi_platform_crypto_tr.Auth.TwoFactor.{consume_totp, is_falsy, text_or_empty}
use multi_platform_crypto_tr.Auth.Login.{
  authenticate, check_user, second_factor, grant, refuse, is_authentication_error,
}

module _ (svc : Services) (req : Request) (given_email password : String)
    (totp_code : Option String) (w : World) where
  abbrev email : String
  email = svc.words.lower given_email

  -- While an identity is locked out, its login request is refused whatever the password and the code
  -- are: the request ends with an account-locked error and changes nothing but the audit trail, whose
  -- new entry outlives the rollback with whatever the session had written before.
  pub locked_login_refused :
      (is_locked svc.words req.monotonic email w.throttle).0 ≡ true
      → in_request (authenticate svc req given_email password totp_code) w ≡ (
        err (account_locked (retry_after svc.words req.monotonic email w.throttle)),
        record w {
          db = record w.db {
            audit =
                record { action = "auth.locked_out"; user_id = none; ip_address = req.ip }
                ∷ w.db.audit;
          };
          committed = record w.db {
            audit =
                record { action = "auth.locked_out"; user_id = none; ip_address = req.ip }
                ∷ w.db.audit;
          };
        },
      )
  unfolding authenticate is_locked retry_after
  locked_login_refused locked = ground arith

  abbrev asked : World
  asked = record w { throttle = (is_locked svc.words req.monotonic email w.throttle).1 }

  -- The user as the second factor left it, and the world after it.
  abbrev pub HasPassed : User → User → World → World → Type 0
  HasPassed user passed v v' =
      ((user.totp_enabled ≡ false) × (passed ≡ user) × (v' ≡ v))
      ⊎ ((is_falsy totp_code ≡ false)
          × (consume_totp svc req user (text_or_empty totp_code) v ≡ (ok passed, v')))

  tried :
      (user passed : User) (v v' : World) (r : Result AppError User × World)
      → consume_totp svc req user (text_or_empty totp_code) v ≡ r
      → second_factor svc req email user totp_code v ≡ (ok passed, v')
      → HasPassed user passed v v'
  unfolding second_factor refuse
  tried user passed v v' (ok burnt, v₁) e done = elim (Bool-cases user.totp_enabled) [
    | inl on ↦ elim (Bool-cases (is_falsy totp_code)) [
      | inl missing ↦ ground arith
      | inr given ↦ inr (given, ground arith)
    ]
    | inr off ↦ inl (off, ground arith, ground arith)
  ]
  tried user passed v v' (err x, v₁) e done = elim (Bool-cases user.totp_enabled) [
    | inl on ↦ elim (Bool-cases (is_falsy totp_code)) [
      | inl missing ↦ ground arith
      | inr given ↦ elim (Bool-cases (is_authentication_error x)) [
        | inl counted ↦ ground arith
        | inr other ↦ ground arith
      ]
    ]
    | inr off ↦ inl (off, ground arith, ground arith)
  ]

  granted :
      (user : User) (r : Result AppError User × World) (pair : TokenPair) (w' : World)
      → second_factor svc req email user totp_code asked ≡ r
      → check_user svc req email password totp_code (some user) asked ≡ (ok pair, w')
      → (passed : User) × (v : World) × (svc.verify user.password_hash password ≡ true)
        × (user.is_active ≡ true)
        × (r ≡ (ok passed, v))
        × (pair
            ≡ issue_pair svc.tokens req.wall req.jti_access req.jti_refresh passed.id passed.role
                passed.token_generation)
  unfolding check_user grant refuse
  granted user (ok passed, v) pair w' e done =
      (passed, v, ground arith, ground arith, refl, ground arith)
  granted user (err x, v) pair w' e done = ground arith

  -- A login that is answered with tokens was for an identity that is not locked out, and for a user
  -- with that email whose password was verified and who is active; with two-factor authentication
  -- enabled, a code was given and consumed. The tokens are the pair for that user.
  pub login_was_checked :
      (pair : TokenPair) (w' : World)
      → authenticate svc req given_email password totp_code w ≡ (ok pair, w')
      → ((is_locked svc.words req.monotonic email w.throttle).0 ≡ false)
        × (user : User) × (passed : User) × (v : World) × (find_email
              (svc.words.lower email)
              w.db.users
            ≡ some user)
        × (svc.verify user.password_hash password ≡ true)
        × (user.is_active ≡ true)
        × HasPassed user passed asked v
        × (pair
            ≡ issue_pair svc.tokens req.wall req.jti_access req.jti_refresh passed.id passed.role
                passed.token_generation)
  unfolding authenticate check_user refuse
  login_was_checked pair w' done =
      elim (Bool-cases (is_locked svc.words req.monotonic email w.throttle).0) [
        | inl locked ↦ ground arith
        | inr free ↦ elim (Option-cases (find_email (svc.words.lower email) w.db.users)) [
          | inl unknown ↦ ground arith
          | inr (user, found) ↦
              let step : check_user svc req email password totp_code (some user) asked
                  ≡ (ok pair, w') =
                ground arith in
              let (passed, v, verified, active, after, issued) =
                granted user (second_factor svc req email user totp_code asked) pair w' refl step in
              (
                free,
                user,
                passed,
                v,
                found,
                verified,
                active,
                tried user passed asked v
                    (consume_totp svc req user (text_or_empty totp_code) asked) refl after,
                issued,
              )
        ]
      ]
