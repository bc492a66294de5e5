-- ===== src/Auth/TwoFactor.antt =====
-- One-time codes in the authentication service: `_consume_totp`, `begin_totp_enrollment`,
-- `confirm_totp` and `disable_totp` of app/services/auth_service.py.
pub mod Replay
mod Tests
use multi_platform_crypto_tr.Base.{
  ℕ, ◌/◌, String, Bool, true, false, not, ◌||◌, Option, none, some, str_eq, leb, if◌then◌else◌,
}
use multi_platform_crypto_tr.Base.Dict.{lookup, insert}
use multi_platform_crypto_tr.Base.Result.{Result, ok, err}
use multi_platform_crypto_tr.Exceptions.{AppError, authentication_error, not_found, conflict}
use multi_platform_crypto_tr.Security.Time.{second}
use multi_platform_crypto_tr.Security.Totp.{verify_counter}
use multi_platform_crypto_tr.Auth.State.{
  User, World, Services, Request, Action, pure, raise, gets, lift, ◌>>=◌, ◌>>◌, modify,
  audit_record, save_user, get_user_by_id,
}

-- `user.totp_secret_enc or ""`
abbrev pub text_or_empty : Option String → String
text_or_empty none = ""
text_or_empty (some s) = s

-- `not s`: None or the empty text
abbrev pub is_falsy : Option String → Bool
is_falsy none = true
is_falsy (some s) = str_eq s ""

-- `user.totp_last_counter is not None and counter <= user.totp_last_counter`
abbrev pub is_used : Option ℕ → ℕ → Bool
is_used none counter = false
is_used (some last) counter = leb counter last

burn : User → Option ℕ → Action User
burn user none = raise authentication_error
burn user (some counter) =
    if is_used user.totp_last_counter counter then raise authentication_error else (do
      let burnt = record user { totp_last_counter = some counter }
      save_user burnt
      pure burnt)

-- `_consume_totp`; the user row is changed in place, so the new row is handed on
unfoldable pub consume_totp : Services → Request → User → String → Action User
unfolding burn
consume_totp svc req user code = do
  secret ← lift (svc.decrypt (text_or_empty user.totp_secret_enc))
  counter ← lift (verify_counter svc.words svc.otp svc.valid_window secret code (req.wall / second))
  burn user counter

or_not_found : Option User → Action User
or_not_found none = raise not_found
or_not_found (some user) = pure user

-- `begin_totp_enrollment`, with the secret that was generated; the provisioning URI is left out
unfoldable pub begin_totp_enrollment : Services → String → String → Action String
unfolding or_not_found
begin_totp_enrollment svc secret user_id = do
  user ← or_not_found (← get_user_by_id user_id)
  if user.totp_enabled
      then raise conflict
      else (do save_user (record user { totp_secret_enc = some (svc.encrypt secret) }); pure secret)

unfoldable pub confirm_totp : Services → Request → String → String → Action (Unit {0})
unfolding or_not_found
confirm_totp svc req user_id code = do
  user ← or_not_found (← get_user_by_id user_id)
  if is_falsy user.totp_secret_enc then raise not_found else (do
    burnt ← consume_totp svc req user code
    save_user (record burnt { totp_enabled = true })
    audit_record "auth.2fa_enabled" (some burnt.id) none)

unfoldable pub disable_totp : Services → Request → String → String → Action (Unit {0})
unfolding or_not_found
disable_totp svc req user_id code = do
  user ← or_not_found (← get_user_by_id user_id)
  if not user.totp_enabled || is_falsy user.totp_secret_enc then raise conflict else (do
    burnt ← consume_totp svc req user code
    save_user
        (record burnt { totp_enabled = false; totp_secret_enc = none; totp_last_counter = none })
    audit_record "auth.2fa_disabled" (some burnt.id) none)
