-- ===== src/Security/Totp/Tests.antt =====
-- Witnesses for one-time codes, with steps of 30 seconds.
use multi_platform_crypto_tr.Base.{
  ℕ, ◌+◌, ◌/◌, ◌≤◌, ◌≡◌, refl, true, some, arith, ◌==◌, if◌then◌else◌,
}
use multi_platform_crypto_tr.Base.Result.{ok}
use multi_platform_crypto_tr.Security.Words.{plain}
use multi_platform_crypto_tr.Security.Totp.{Otp, match_loop, verify_counter}
use multi_platform_crypto_tr.Security.Totp.Window.{accepted_in_window}

abbrev otp : Otp
otp = record { code_at = λ secret at. if at / 30 == 2 then "123456" else "000000"; interval = 30 }

accepted : verify_counter plain otp 1 "seed" "123456" 95 ≡ ok (some 2)
unfolding verify_counter match_loop
accepted = refl

accepted_in_window_example :
    (true ≡ true)
    × (3 ≤ 2 + 1)
    × (2 ≤ 3 + 1)
    × ((at : ℕ) × (otp.code_at "seed" at ≡ "123456") × (2 ≡ at / 30))
accepted_in_window_example =
    accepted_in_window plain otp 1 "seed" "123456" 95 2 (omega arith) (omega arith) accepted
