-- ===== src/Auth/TwoFactor/Replay.antt =====
-- A one-time code is good for one use.
use multi_platform_crypto_tr.Base.{
  ℕ, ◌/◌, ◌≤◌, ◌≡◌, refl, inl, inr, String, true, false, none, some, arith, Bool-cases,
  if◌then◌else◌,
}
use multi_platform_crypto_tr.Base.Dict.{lookup, insert, lookup-insert_self}
use multi_platform_crypto_tr.Base.Result.{Result, ok, err, Result-cases}
use multi_platform_crypto_tr.Exceptions.{AppError, authentication_error}
use multi_platform_crypto_tr.Security.Time.{second}
use multi_platform_crypto_tr.Security.Totp.{verify_counter}
use multi_platform_crypto_tr.Auth.State.{User, World, Services, Request}
use multi_platform_crypto_tr.Auth.TwoFactor.{
  text_or_empty, is_used, burn, consume_totp, disable_totp,
}

-- The counter that a code matches for a user, at the time of the request.
abbrev pub Matches : Services → Request → User → String → ℕ → Type 0
Matches svc req user code c =
    (secret : String) × (svc.decrypt (text_or_empty user.totp_secret_enc) ≡ ok secret)
    × (verify_counter svc.words svc.otp svc.valid_window secret code (req.wall / second)
        ≡ ok (some c))

-- A code is consumed exactly if it matches a counter above the last one that was accepted: the user
-- row then holds that counter, and is otherwise what it was. A code that matches a counter at or
-- below the last one raises an authentication error and writes nothing.
pub consume_totp_once :
    (svc : Services) (req : Request) (user : User) (code : String) (c : ℕ) (w : World)
    → Matches svc req user code c
    → let burnt = record user { totp_last_counter = some c } in
      consume_totp svc req user code w ≡ (
        if is_used user.totp_last_counter c
        then (err authentication_error, w)
        else (ok burnt, record w { db = record w.db { users = insert user.id burnt w.db.users } }))
unfolding consume_totp
consume_totp_once svc req user code c w (secret, decrypted, matched) = ground arith

-- A code that is not consumed writes nothing.
pub refused_code_keeps :
    (svc : Services) (req : Request) (user : User) (code : String) (x : AppError) (w w' : World)
    → consume_totp svc req user code w ≡ (err x, w')
    → w' ≡ w
unfolding consume_totp burn
refused_code_keeps svc req user code x w w' e =
    elim (Result-cases (svc.decrypt (text_or_empty user.totp_secret_enc))) [
      | inl (secret, d) ↦
          elim (Result-cases
            (verify_counter svc.words svc.otp svc.valid_window secret code (req.wall / second))) [
              | inl (none, v) ↦ ground arith
              | inl (some c, v) ↦ elim (Bool-cases (is_used user.totp_last_counter c)) [
                | inl used ↦ ground arith
                | inr new ↦ ground arith
              ]
              | inr (y, v) ↦ ground arith
            ]
      | inr (y, d) ↦ ground arith
    ]

-- Whatever a consumed code was, no code that matches its counter or an earlier one is accepted for
-- the row that consuming it left, at any later request.
pub consumed_code_refused :
    (svc : Services) (req later : Request) (user burnt : User) (code again : String) (c d : ℕ)
    (w w' v : World)
    → Matches svc req user code c
    → consume_totp svc req user code w ≡ (ok burnt, w')
    → Matches svc later burnt again d
    → d ≤ c
    → (lookup user.id w'.db.users ≡ some burnt)
      × (consume_totp svc later burnt again v ≡ (err authentication_error, v))
consumed_code_refused svc req later user burnt code again c d w w' v m done m' h = ground (
  arith,
  consume_totp_once svc req user code c w m,
  consume_totp_once svc later burnt again d v m',
  lookup-insert_self user.id (record user { totp_last_counter = some c }) w.db.users,
)

module _ (svc : Services) (req : Request) (user : User) (code : String) (w w' : World) where
  after_consuming :
      (r : Result AppError User × World)
      → consume_totp svc req user code w ≡ r
      → lookup user.id w.db.users ≡ some user
      → disable_totp svc req user.id code w ≡ (ok tt, w')
      → (burnt : User) × (w₁ : World) × (r ≡ (ok burnt, w₁))
        × (user.totp_enabled ≡ true)
        × (lookup burnt.id w'.db.users
            ≡ some (record burnt {
              totp_enabled = false;
              totp_secret_enc = none;
              totp_last_counter = none;
            }))
  unfolding disable_totp
  after_consuming (ok burnt, w₁) e found done = (
    burnt,
    w₁,
    refl,
    ground arith,
    ground (
      arith,
      lookup-insert_self burnt.id
          (record burnt { totp_enabled = false; totp_secret_enc = none; totp_last_counter = none })
          w₁.db.users,
    ),
  )
  after_consuming (err x, w₁) e found done = ground arith

  -- Two-factor authentication is disabled only by a request whose code was consumed for the stored
  -- row, which had it enabled; the row is then disabled, has no secret, and is otherwise as it was.
  pub disable_needs_code :
      lookup user.id w.db.users ≡ some user
      → disable_totp svc req user.id code w ≡ (ok tt, w')
      → (burnt : User) × (w₁ : World) × (consume_totp svc req user code w ≡ (ok burnt, w₁))
        × (user.totp_enabled ≡ true)
        × (lookup burnt.id w'.db.users
            ≡ some (record burnt {
              totp_enabled = false;
              totp_secret_enc = none;
              totp_last_counter = none;
            }))
  disable_needs_code found done = after_consuming (consume_totp svc req user code w) refl found done
