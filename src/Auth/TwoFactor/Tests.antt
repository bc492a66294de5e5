-- ===== src/Auth/TwoFactor/Tests.antt =====
-- Witnesses and runs for one-time codes.
use multi_platform_crypto_tr.Base.{◌≡◌, refl, some, arith}
use multi_platform_crypto_tr.Base.Dict.{lookup, insert}
use multi_platform_crypto_tr.Base.Result.{ok, err}
use multi_platform_crypto_tr.Exceptions.{authentication_error}
use multi_platform_crypto_tr.Security.Totp.{verify_counter, match_loop}
use multi_platform_crypto_tr.Auth.State.{User, World}
use multi_platform_crypto_tr.Auth.Samples.{services, request, guarded, world_of}
use multi_platform_crypto_tr.Auth.TwoFactor.{consume_totp, disable_totp}
use multi_platform_crypto_tr.Auth.TwoFactor.Replay.{
  Matches, consume_totp_once, consumed_code_refused,
}

abbrev burnt : User
burnt = record guarded { totp_last_counter = some 2 }

code-Matches :
    (user : User) → user.totp_secret_enc ≡ some "seed" → Matches services request user "123456" 2
unfolding verify_counter match_loop
code-Matches user e = ("seed", rw e refl, refl)

consuming : consume_totp services request guarded "123456" (world_of guarded) ≡ (
  ok burnt,
  record (world_of guarded) {
    db = record (world_of guarded).db { users = insert "u1" burnt (world_of guarded).db.users };
  },
)
consuming =
    consume_totp_once services request guarded "123456" 2 (world_of guarded)
      (code-Matches guarded refl)

abbrev world_after : World
world_after = record (world_of guarded) {
  db = record (world_of guarded).db { users = insert "u1" burnt (world_of guarded).db.users };
}

consumed_code_refused_example :
    (lookup "u1" world_after.db.users ≡ some burnt)
    × (consume_totp services request burnt "123456" world_after
        ≡ (err authentication_error, world_after))
consumed_code_refused_example =
    consumed_code_refused services request request guarded burnt "123456" "123456" 2 2
      (world_of guarded) world_after world_after (code-Matches guarded refl) consuming
      (code-Matches burnt refl) (omega arith)

abbrev world_disabled : World
world_disabled = (disable_totp services request "u1" "123456" (world_of guarded)).1

disabling : disable_totp services request "u1" "123456" (world_of guarded) ≡ (ok tt, world_disabled)
unfolding disable_totp consume_totp verify_counter match_loop lookup insert
disabling = refl
