-- ===== src/Auth/Login/Tests.antt =====
-- Witnesses and runs for the login.
use multi_platform_crypto_tr.Base.{◌≡◌, refl, true, false, none, some, [], ◌∷◌, arith}
use multi_platform_crypto_tr.Base.Dict.{lookup, insert}
use multi_platform_crypto_tr.Base.Result.{Result, ok, err}
use multi_platform_crypto_tr.Exceptions.{AppError, authentication_error, account_locked}
use multi_platform_crypto_tr.Security.Throttle.{
  is_locked, normalise, record_failure, record_success, retry_after,
}
use multi_platform_crypto_tr.Security.Throttle.Lockout.{locked_at, failures_at}
use multi_platform_crypto_tr.Security.Tokens.{TokenPair, issue_pair}
use multi_platform_crypto_tr.Auth.State.{User, AuditLog, World, find_email, in_request}
use multi_platform_crypto_tr.Auth.Samples.{services, request, alice, world_of}
use multi_platform_crypto_tr.Auth.Login.{authenticate, check_user, second_factor, grant, refuse}
use multi_platform_crypto_tr.Auth.Login.Guard.{HasPassed, login_was_checked}
use multi_platform_crypto_tr.Auth.Login.Refusal.{refused, refused_login_counted}
use multi_platform_crypto_tr.Auth.Login.Guessing.{Attempt, answer, after, guesses_are_limited}

abbrev world : World
world = world_of alice

abbrev locked_world : World
locked_world = record world {
  throttle = record world.throttle {
    entries = ("alice", record { failures = 2; locked_until = 90000000000 }) ∷ [];
  };
}

abbrev entry : AuditLog
entry = record { action = "auth.locked_out"; user_id = none; ip_address = some "::1" }

abbrev outcome : Result AppError TokenPair × World
outcome = authenticate services request "alice" "secret" none world

abbrev pair : TokenPair
pair = issue_pair services.tokens request.wall "a2" "j2" "u1" "trader" 0

login : authenticate services request "alice" "secret" none world ≡ (ok pair, outcome.1)
unfolding authenticate check_user second_factor grant is_locked normalise lookup find_email
    record_success
login = refl

login_was_checked_example :
    ((is_locked services.words request.monotonic "alice" world.throttle).0 ≡ false)
    × (user : User) × (passed : User) × (v : World) × (find_email "alice" world.db.users
        ≡ some user)
    × (services.verify user.password_hash "secret" ≡ true)
    × (user.is_active ≡ true)
    × HasPassed services request "alice" "secret" none world user passed
        (record world {
          throttle = (is_locked services.words request.monotonic "alice" world.throttle).1;
        })
        v
    × (pair
        ≡ issue_pair services.tokens request.wall "a2" "j2" passed.id passed.role
            passed.token_generation)
login_was_checked_example =
    login_was_checked services request "alice" "secret" none world pair outcome.1 login

wrong :
    authenticate services request "alice" "guess" none world
    ≡ (err authentication_error, (authenticate services request "alice" "guess" none world).1)
unfolding authenticate check_user refuse is_locked normalise lookup find_email
wrong = refl

refused_login_counted_example :
    (entry : AuditLog) × (entry.ip_address ≡ some "::1")
    × (in_request (authenticate services request "alice" "guess" none) world
        ≡ (err authentication_error, refused services request "alice" "guess" none world entry))
refused_login_counted_example =
    refused_login_counted services request "alice" "guess" none world
      (authenticate services request "alice" "guess" none world).1 wrong

abbrev guess : Attempt
guess = record { req = request; password = "guess"; totp_code = none }

abbrev right : Attempt
right = record { req = request; password = "secret"; totp_code = none }

guesses_are_limited_example :
    let v = (answer services "alice" guess (after services "alice" (guess ∷ []) world)).1 in
    (answer services "alice" right v).0
    ≡ err (account_locked (retry_after services.words request.monotonic "alice" v.throttle))
unfolding after authenticate check_user refuse is_locked normalise lookup insert find_email
    record_failure locked_at failures_at
guesses_are_limited_example =
    guesses_are_limited services "alice" (guess ∷ []) guess right world refl refl (refl, tt) refl
      (omega arith)
