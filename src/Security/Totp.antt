-- ===== src/Security/Totp.antt =====
-- `TotpService` of app/security/totp.py. What `pyotp.TOTP(secret).at` returns is an argument, and so
-- is its interval; time is in whole seconds, and at least the drift window after the epoch.
pub mod Window
mod Tests
use multi_platform_crypto_tr.Base.{
  ℕ, zero, suc, ◌+◌, ◌-◌, ◌*◌, ◌/◌, String, Bool, true, false, not, Option, none, some, str_eq,
  if◌then◌else◌,
}
use multi_platform_crypto_tr.Base.Result.{Result, ok, err}
use multi_platform_crypto_tr.Exceptions.{AppError, unhandled}
use multi_platform_crypto_tr.Security.Words.{Words}

-- `pyotp.TOTP(secret)`: the code at a time, and the length of a step in seconds
pub record Otp : Type 0 where
  pub code_at : String → ℕ → String
  pub interval : ℕ

module _ (otp : Otp) (secret code : String) (base : ℕ) where
  -- The loop over the candidate steps from number `k` on, `n` of them; `base` is the earliest time.
  unfoldable pub match_loop : ℕ → ℕ → Option ℕ → Option ℕ
  match_loop zero k matched = matched
  match_loop (suc n) k matched =
      let at = base + k * otp.interval in
      match_loop n (suc k)
        (if str_eq (otp.code_at secret at) code then some (at / otp.interval) else matched)

-- `verify_counter`, on a code that is not None. `hmac.compare_digest` raises a `TypeError` for a text
-- that is not ASCII.
unfoldable pub verify_counter : Words → Otp → ℕ → String → String → ℕ → Result AppError (Option ℕ)
unfolding match_loop
verify_counter w otp valid_window secret raw current =
    let code = w.strip raw in
    if not (w.is_digit code)
    then ok none
    else if not (w.is_ascii code)
    then err unhandled
    else ok (
        match_loop otp secret code (current - valid_window * otp.interval)
          (valid_window + suc valid_window) 0 none)
