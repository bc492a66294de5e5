-- ===== src/Auth/Login/Refusal.antt =====
-- What a refused login leaves behind.
use multi_platform_crypto_tr.Base.{
  ◌≡◌, refl, inl, inr, String, true, Option, none, some, ◌∷◌, arith, Bool-cases,
}
use multi_platform_crypto_tr.Base.Result.{Result, ok, err}
use multi_platform_crypto_tr.Exceptions.{AppError, authentication_error}
use multi_platform_crypto_tr.Security.Throttle.{is_locked, record_failure}
use multi_platform_crypto_tr.Auth.State.{
  User, AuditLog, Db, World, Services, Request, find_email, in_request,
}
use multi_platform_crypto_tr.Auth.TwoFactor.{consume_totp, is_falsy, text_or_empty}
use multi_platform_crypto_tr.Auth.TwoFactor.Replay.{refused_code_keeps}
use multi_platform_crypto_tr.Auth.Login.{
  authenticate, check_user, second_factor, grant, refuse, is_authentication_error,
}

module _ (svc : Services) (req : Request) (given_email password : String)
    (totp_code : Option String) (w : World) where
  abbrev email : String
  email = svc.words.lower given_email

  abbrev asked : World
  asked = record w { throttle = (is_locked svc.words req.monotonic email w.throttle).1 }

  -- The world that a refused login leaves, with its audit entry.
  abbrev pub refused : AuditLog → World
  refused entry =
      let audited : Db = record w.db { audit = entry ∷ w.db.audit } in
      record w {
        db = audited;
        committed = audited;
        throttle = record_failure svc.words req.monotonic email asked.throttle;
      }

  abbrev entry_of : String → Option String → AuditLog
  entry_of action user_id = record { action = action; user_id = user_id; ip_address = req.ip }

  abbrev IsRefusal : World → Type 0
  IsRefusal w' =
      (action : String) × (user_id : Option String) × (w' ≡ refused (entry_of action user_id))

  code_refused :
      (user : User) (r : Result AppError User × World) (w' : World)
      → consume_totp svc req user (text_or_empty totp_code) asked ≡ r
      → second_factor svc req email user totp_code asked ≡ (err authentication_error, w')
      → w' ≡ refused (entry_of "auth.2fa_failed" (some user.id))
  unfolding second_factor refuse
  code_refused user (ok burnt, v) w' e done = elim (Bool-cases user.totp_enabled) [
    | inl on ↦ elim (Bool-cases (is_falsy totp_code)) [
      | inl missing ↦ ground arith
      | inr given ↦ ground arith
    ]
    | inr off ↦ ground arith
  ]
  code_refused user (err x, v) w' e done =
      let kept = refused_code_keeps svc req user (text_or_empty totp_code) x asked v e in
      elim (Bool-cases user.totp_enabled) [
        | inl on ↦ elim (Bool-cases (is_falsy totp_code)) [
          | inl missing ↦ ground arith
          | inr given ↦ elim (Bool-cases (is_authentication_error x)) [
            | inl counted ↦ ground (arith, kept)
            | inr other ↦ ground (arith, kept)
          ]
        ]
        | inr off ↦ ground arith
      ]

  past_password :
      (user : User) (r : Result AppError User × World) (w' : World)
      → second_factor svc req email user totp_code asked ≡ r
      → svc.verify user.password_hash password ≡ true
      → user.is_active ≡ true
      → check_user svc req email password totp_code (some user) asked
        ≡ (err authentication_error, w')
      → second_factor svc req email user totp_code asked ≡ (err authentication_error, w')
  unfolding check_user grant
  past_password user (ok passed, v) w' e verified active done = ground arith
  past_password user (err x, v) w' e verified active done = ground arith

  user_refused :
      (user : User) (w' : World)
      → check_user svc req email password totp_code (some user) asked
        ≡ (err authentication_error, w')
      → IsRefusal w'
  unfolding check_user refuse
  user_refused user w' done = elim (Bool-cases (svc.verify user.password_hash password)) [
    | inr wrong ↦ ("auth.login_failed", some user.id, ground arith)
    | inl right ↦ elim (Bool-cases user.is_active) [
      | inr disabled ↦ ("auth.login_disabled", some user.id, ground arith)
      | inl active ↦ (
        "auth.2fa_failed",
        some user.id,
        code_refused user (consume_totp svc req user (text_or_empty totp_code) asked) w' refl (
            past_password user (second_factor svc req email user totp_code asked) w' refl right
              active done),
      )
    ]
  ]

  checks_refused :
      (found : Option User) (w' : World)
      → check_user svc req email password totp_code found asked ≡ (err authentication_error, w')
      → IsRefusal w'
  unfolding check_user refuse
  checks_refused none w' done = ("auth.login_failed", none, ground arith)
  checks_refused (some user) w' done = user_refused user w' done

  -- A login that ends with the error that names a wrong email, password or code, or a disabled
  -- account (`authentication_error`), has counted a failure against the identity and written one
  -- audit entry, with the address of the client; both outlive the rollback, and nothing else has
  -- changed. This says nothing of a login that ends with another error, such as one that only lacks
  -- its code or one of a locked identity.
  pub refused_login_counted :
      (w' : World)
      → authenticate svc req given_email password totp_code w ≡ (err authentication_error, w')
      → (entry : AuditLog) × (entry.ip_address ≡ req.ip)
        × (in_request (authenticate svc req given_email password totp_code) w
            ≡ (err authentication_error, refused entry))
  unfolding authenticate
  refused_login_counted w' done =
      elim (Bool-cases (is_locked svc.words req.monotonic email w.throttle).0) [
        | inl locked ↦ ground arith
        | inr free ↦
            let found = find_email (svc.words.lower email) w.db.users in
            let step : check_user svc req email password totp_code found asked
                ≡ (err authentication_error, w') =
              ground arith in
            let (action, user_id, e) = checks_refused found w' step in
            (entry_of action user_id, refl, ground (arith, e))
      ]
