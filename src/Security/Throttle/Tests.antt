-- ===== src/Security/Throttle/Tests.antt =====
-- Witnesses for the login throttle: two attempts, and a lockout of 300 seconds.
use multi_platform_crypto_tr.Base.{◌≡◌, refl, true, [], ◌∷◌}
use multi_platform_crypto_tr.Base.Dict.{lookup}
use multi_platform_crypto_tr.Security.Words.{plain}
use multi_platform_crypto_tr.Security.Throttle.{Throttle, is_locked, record_failure}
use multi_platform_crypto_tr.Security.Throttle.Lockout.{record_failures, locks_exactly}

abbrev empty : Throttle
empty = record { max_attempts = 2; lockout_seconds = 300; entries = [] }

abbrev locked : Throttle
locked = record empty {
  entries = ("alice", record { failures = 2; locked_until = 305000000000 }) ∷ [];
}

locks_exactly_example :
    (is_locked plain 9000000000 "alice"
      (record_failure plain 5000000000 "alice" (record_failures plain (1 ∷ []) "alice" empty))).0
    ≡ true
unfolding lookup
locks_exactly_example = locks_exactly plain (1 ∷ []) 5000000000 9000000000 "alice" empty refl
