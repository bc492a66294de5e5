-- ===== src/Auth/Login/Guessing.antt =====
-- How many passwords can be tried on one account.
use multi_platform_crypto_tr.Base.{
  ◌+◌, ◌<◌, ◌≡◌, refl, ap, String, true, Option, List, [], ◌∷◌, arith, length, leb, if◌then◌else◌,
}
use multi_platform_crypto_tr.Base.Result.{Result, ok, err}
use multi_platform_crypto_tr.Exceptions.{AppError, authentication_error, account_locked}
use multi_platform_crypto_tr.Security.Time.{seconds}
use multi_platform_crypto_tr.Security.Throttle.{is_locked, retry_after, record_failure}
use multi_platform_crypto_tr.Security.Throttle.Lockout.{
  failures_at, locked_at, is_locked-eq-ltb, unlocked_keeps, settings-record_failure,
  failures_at-record_failure, locked_at-record_failure,
}
use multi_platform_crypto_tr.Security.Tokens.{TokenPair}
use multi_platform_crypto_tr.Auth.State.{World, Services, Request, in_request}
use multi_platform_crypto_tr.Auth.Login.{authenticate}
use multi_platform_crypto_tr.Auth.Login.Guard.{locked_login_refused}
use multi_platform_crypto_tr.Auth.Login.Refusal.{refused_login_counted}

pub record Attempt : Type 0 where
  pub req : Request
  pub password : String
  pub totp_code : Option String

module _ (svc : Services) (given_email : String) where
  abbrev email : String
  email = svc.words.lower given_email

  -- One login request, with its answer.
  abbrev pub answer : Attempt → World → Result AppError TokenPair × World
  answer a w = in_request (authenticate svc a.req given_email a.password a.totp_code) w

  -- The world after login requests one after another.
  unfoldable pub after : List Attempt → World → World
  after [] w = w
  after (a ∷ rest) w = after rest (answer a w).1

  -- Each of them ends with an authentication error.
  abbrev pub AllRefused : List Attempt → World → Type 0
  AllRefused [] w = Unit
  AllRefused (a ∷ rest) w =
      ((answer a w).0 ≡ err authentication_error) × AllRefused rest (answer a w).1

  refused_throttle :
      (a : Attempt) (w : World) (r : Result AppError TokenPair × World)
      → authenticate svc a.req given_email a.password a.totp_code w ≡ r
      → (answer a w).0 ≡ err authentication_error
      → (answer a w).1.throttle
        ≡ record_failure svc.words a.req.monotonic email
            (is_locked svc.words a.req.monotonic email w.throttle).1
  refused_throttle a w (ok pair, w') e refuses = ground arith
  refused_throttle a w (err x, w') e refuses =
      let step : authenticate svc a.req given_email a.password a.totp_code w
          ≡ (err authentication_error, w') =
        ground arith in
      let (entry, ip, f) =
        refused_login_counted svc a.req given_email a.password a.totp_code w w' step in
      ground (arith, f)

  -- One refused request by an identity that is not locked counts one failure.
  counted :
      (a : Attempt) (w : World)
      → (answer a w).0 ≡ err authentication_error
      → locked_at svc.words email w.throttle ≡ 0
      → let t = (answer a w).1.throttle in
        (t.max_attempts ≡ w.throttle.max_attempts)
        × (t.lockout_seconds ≡ w.throttle.lockout_seconds)
        × (failures_at svc.words email t ≡ failures_at svc.words email w.throttle + 1)
        × (locked_at svc.words email t ≡ (
            if leb w.throttle.max_attempts (failures_at svc.words email w.throttle + 1)
            then a.req.monotonic + seconds w.throttle.lockout_seconds
            else 0))
  counted a w refuses free =
      let now = a.req.monotonic in
      let e =
        refused_throttle a w (authenticate svc a.req given_email a.password a.totp_code w) refl
          refuses in
      let f = unlocked_keeps svc.words now email w.throttle free in
      let g = settings-record_failure svc.words now email w.throttle in
      rw (e, f)
        (
          g.0,
          g.1,
          failures_at-record_failure svc.words now email w.throttle,
          ground (arith, locked_at-record_failure svc.words now email w.throttle),
        )

  counted_all :
      (tries : List Attempt) (w : World)
      → AllRefused tries w
      → locked_at svc.words email w.throttle ≡ 0
      → length tries + failures_at svc.words email w.throttle < w.throttle.max_attempts
      → let t = (after tries w).throttle in
        (t.max_attempts ≡ w.throttle.max_attempts)
        × (t.lockout_seconds ≡ w.throttle.lockout_seconds)
        × (failures_at svc.words email t ≡ length tries + failures_at svc.words email w.throttle)
        × (locked_at svc.words email t ≡ 0)
  unfolding after
  counted_all [] w all free h = (refl, refl, omega arith, free)
  counted_all (a ∷ rest) w (first, all) free h =
      let one = counted a w first free in
      ground (
        arith,
        one,
        counted_all rest (answer a w).1 all (ground (arith, one)) (ground (arith, one)),
      )

  -- From an account with no lock, once login requests that ended with an authentication error have
  -- brought its failures to `max_attempts`, the next request within the lockout is refused as locked,
  -- with the right password or not.
  pub guesses_are_limited :
      (tries : List Attempt) (last next : Attempt) (w : World)
      → locked_at svc.words email w.throttle ≡ 0
      → length tries + failures_at svc.words email w.throttle + 1 ≡ w.throttle.max_attempts
      → AllRefused tries w
      → (answer last (after tries w)).0 ≡ err authentication_error
      → next.req.monotonic < last.req.monotonic + seconds w.throttle.lockout_seconds
      → let v = (answer last (after tries w)).1 in
        (answer next v).0
        ≡ err (account_locked (retry_after svc.words next.req.monotonic email v.throttle))
  guesses_are_limited tries last next w free h all fails soon =
      let before = counted_all tries w all free (omega arith) in
      let at_last = counted last (after tries w) fails before.3 in
      let v = (answer last (after tries w)).1 in
      let locked : (is_locked svc.words next.req.monotonic email v.throttle).0 ≡ true =
        ground (
          arith,
          before,
          at_last,
          is_locked-eq-ltb svc.words next.req.monotonic email v.throttle,
        ) in
      ap (λ r. r.0)
        (locked_login_refused svc next.req given_email next.password next.totp_code v locked)
