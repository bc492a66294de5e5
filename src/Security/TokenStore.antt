-- ===== src/Security/TokenStore.antt =====
-- `InMemoryTokenStore` of app/security/token_store.py. Each method takes the reading of the clock.
pub mod Revocation
mod Tests
use multi_platform_crypto_tr.Base.{
  ℕ, ◌+◌, String, Bool, true, false, Option, none, some, List, [], ◌∷◌, leb, max, if◌then◌else◌,
}
use multi_platform_crypto_tr.Base.Dict.{Dict, lookup, insert, erase}
use multi_platform_crypto_tr.Base.Dict.Sweep.{sweep}
use multi_platform_crypto_tr.Security.Time.{seconds}

-- `_revoked`: for each identifier, when it expires
abbrev pub TokenStore : Type 0
TokenStore = Dict ℕ

-- `_prune`
unfoldable pub prune : ℕ → TokenStore → TokenStore
prune now store = sweep (λ exp. leb exp now) store

unfoldable pub revoke : ℕ → String → ℕ → TokenStore → TokenStore
revoke now jti ttl_seconds store = insert jti (now + seconds (max ttl_seconds 1)) (prune now store)

found_revoked : Option ℕ → ℕ → String → TokenStore → Bool × TokenStore
found_revoked none now jti store = (false, store)
found_revoked (some exp) now jti store =
    if leb exp now then (false, erase jti store) else (true, store)

-- `is_revoked`, with the store that it leaves
unfoldable pub is_revoked : ℕ → String → TokenStore → Bool × TokenStore
unfolding found_revoked
is_revoked now jti store = found_revoked (lookup jti store) now jti store
