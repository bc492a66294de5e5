-- ===== src/Auth/Login.antt =====
-- `register` and `authenticate` of app/services/auth_service.py.
pub mod Guard
pub mod Refusal
pub mod Guessing
mod Tests
use multi_platform_crypto_tr.Base.{
  String, Bool, true, false, not, Option, none, some, if◌then◌else◌,
}
use multi_platform_crypto_tr.Base.Dict.{lookup, insert}
use multi_platform_crypto_tr.Base.Result.{Result, ok, err}
use multi_platform_crypto_tr.Exceptions.{
  AppError, authentication_error, invalid_token, two_factor_required, account_locked, conflict,
}
use multi_platform_crypto_tr.Security.Throttle
use multi_platform_crypto_tr.Security.Throttle.{
  is_locked, retry_after, record_failure, record_success,
}
use multi_platform_crypto_tr.Security.Tokens.{TokenPair, issue_pair}
use multi_platform_crypto_tr.Auth.State.{
  User, World, Services, Request, Action, pure, raise, gets, ◌>>=◌, ◌>>◌, modify, audit_record,
  commit, save_user, find_email,
}
use multi_platform_crypto_tr.Auth.TwoFactor.{is_falsy, consume_totp, text_or_empty}

-- `throttle.is_locked(email)`, which may drop an expired entry
asks_locked : Services → Request → String → Action Bool
asks_locked svc req email w =
    let (locked, t) = is_locked svc.words req.monotonic email w.throttle in
    (ok locked, record w { throttle = t })

-- The end of every refused login: count the failure, record it, and commit the record.
unfoldable pub refuse :
    {A : Type 0} → Services → Request → String → String → Option String → AppError → Action A
refuse svc req email action user_id e = do
  modify (λ w. record w { throttle = record_failure svc.words req.monotonic email w.throttle })
  audit_record action user_id req.ip
  commit
  raise e

-- `except AuthenticationError`
abbrev pub is_authentication_error : AppError → Bool
is_authentication_error authentication_error = true
is_authentication_error invalid_token = true
is_authentication_error two_factor_required = true
is_authentication_error _ = false

-- `_consume_totp` under the `try` of `authenticate`
tries_code : Services → Request → String → User → String → Action User
tries_code svc req email user code w =
    let (r, w') = consume_totp svc req user code w in
    elim r [
      | ok burnt ↦ (ok burnt, w')
      | err e ↦
          if is_authentication_error e
          then refuse svc req email "auth.2fa_failed" (some user.id) e w'
          else (err e, w')
    ]

unfoldable pub second_factor : Services → Request → String → User → Option String → Action User
unfolding tries_code
second_factor svc req email user totp_code =
    if not user.totp_enabled
    then pure user
    else if is_falsy totp_code
    then raise two_factor_required
    else tries_code svc req email user (text_or_empty totp_code)

-- What follows once every factor has passed.
unfoldable pub grant : Services → Request → String → String → User → Action TokenPair
grant svc req email password user = do
  modify (λ w. record w { throttle = record_success svc.words email w.throttle })
  if svc.needs_rehash user.password_hash
      then save_user (record user { password_hash = svc.hash password })
      else pure tt
  audit_record "auth.login" (some user.id) req.ip
  pure (
      issue_pair svc.tokens req.wall req.jti_access req.jti_refresh user.id user.role
        user.token_generation)

-- The checks on the user that was found, in their order.
unfoldable pub check_user :
    Services → Request → String → String → Option String → Option User → Action TokenPair
check_user svc req email password totp_code none =
    refuse svc req email "auth.login_failed" none authentication_error
check_user svc req email password totp_code (some user) =
    if not (svc.verify user.password_hash password)
    then refuse svc req email "auth.login_failed" (some user.id) authentication_error
    else if not user.is_active
    then refuse svc req email "auth.login_disabled" (some user.id) authentication_error
    else (do
      passed ← second_factor svc req email user totp_code
      grant svc req email password passed)

locked_out : Services → Request → String → Action TokenPair
locked_out svc req email = do
  audit_record "auth.locked_out" none req.ip
  commit
  left ← gets (λ w. retry_after svc.words req.monotonic email w.throttle)
  raise (account_locked left)

unfoldable pub authenticate :
    Services → Request → String → String → Option String → Action TokenPair
unfolding asks_locked locked_out
authenticate svc req given_email password totp_code = do
  let email = svc.words.lower given_email
  locked ← asks_locked svc req email
  if locked then locked_out svc req email else (do
    found ← gets (λ w. find_email (svc.words.lower email) w.db.users)
    check_user svc req email password totp_code found)

-- `register`; the id is the one that the row is given
unfoldable pub register : Services → String → String → String → Action User
register svc id given_email password = do
  let email = svc.words.lower given_email
  taken ← gets (λ w. find_email (svc.words.lower email) w.db.users)
  elim taken [
    | some other ↦ raise conflict
    | none ↦ (do
      let user : User = record {
        id = id;
        email = email;
        password_hash = svc.hash password;
        role = "trader";
        is_active = true;
        totp_enabled = false;
        totp_secret_enc = none;
        totp_last_counter = none;
        token_generation = 0;
      }
      save_user user
      audit_record "user.register" (some id) none
      pure user)
  ]
