-- ===== src/Security/TokenStore/Revocation.antt =====
-- A token identifier is revoked exactly until its time to live has passed, whatever is pruned.
use multi_platform_crypto_tr.Base.{
  ℕ, ◌+◌, ◌≤◌, ◌≡◌, String, Bool, false, Option, none, some, arith, eq_iff, str_eq, leb, ltb, max,
  Bool-cases, inl, inr, if◌then◌else◌,
}
use multi_platform_crypto_tr.Base.Dict.{
  lookup, insert, erase, lookup-insert, lookup-erase, HasUniqueKeys, erase-HasUniqueKeys,
}
use multi_platform_crypto_tr.Base.Dict.Sweep.{lookup-sweep}
use multi_platform_crypto_tr.Security.Time.{seconds}
use multi_platform_crypto_tr.Security.TokenStore.{TokenStore, prune, revoke, is_revoked}

-- What a store answers at a time, with nothing removed: the abstract view.
abbrev live_until : Option ℕ → ℕ → Bool
live_until none now = false
live_until (some exp) now = ltb now exp

pub revoked_at : ℕ → String → TokenStore → Bool
revoked_at now jti store = live_until (lookup jti store) now

-- `is_revoked` answers the view.
is_revoked-eq-revoked_at :
    (now : ℕ) (jti : String) (store : TokenStore)
    → (is_revoked now jti store).0 ≡ revoked_at now jti store
unfolding is_revoked revoked_at
is_revoked-eq-revoked_at now jti store = ground arith

-- Removing an identifier that has expired changes no answer from then on.
erase_keeps :
    (now later : ℕ) (j k : String) (store : TokenStore)
    → now ≤ later
    → revoked_at now j store ≡ false
    → revoked_at later k (erase j store) ≡ revoked_at later k store
unfolding revoked_at
erase_keeps now later j k store h e = ground (arith, lookup-erase j k store, eq_iff j k)

prune_keeps :
    (now later : ℕ) (k : String) (store : TokenStore)
    → HasUniqueKeys store
    → now ≤ later
    → revoked_at later k (prune now store) ≡ revoked_at later k store
unfolding prune revoked_at
prune_keeps now later k store u h = ground (arith, lookup-sweep (λ exp. leb exp now) k store u)

revoked_at-insert :
    (later : ℕ) (jti k : String) (exp : ℕ) (store : TokenStore)
    → revoked_at later k (insert jti exp store)
      ≡ (if str_eq jti k then ltb later exp else revoked_at later k store)
unfolding revoked_at
revoked_at-insert later jti k exp store = ground (arith, lookup-insert jti k exp store)

asked_keeps :
    (now later : ℕ) (jti k : String) (store : TokenStore)
    → now ≤ later
    → revoked_at later k (is_revoked now jti store).1 ≡ revoked_at later k store
unfolding is_revoked
asked_keeps now later jti k store h = elim (Bool-cases (revoked_at now jti store)) [
  | inl live ↦ unfold revoked_at in ground arith
  | inr gone ↦ ground (arith, erase_keeps now later jti k store h gone)
]

-- After `revoke` at `now`, the identifier is revoked at a later time exactly if that time lies before
-- `now` plus its time to live, taken as at least one second; the answer for every other identifier is
-- what it was, although expired ones have been pruned.
pub revoke_exact :
    (now later ttl_seconds : ℕ) (jti k : String) (store : TokenStore)
    → HasUniqueKeys store
    → now ≤ later
    → (is_revoked later k (revoke now jti ttl_seconds store)).0 ≡ (
        if str_eq jti k
        then ltb later (now + seconds (max ttl_seconds 1))
        else (is_revoked later k store).0)
unfolding revoke
revoke_exact now later ttl_seconds jti k store u h = ground (
  arith,
  is_revoked-eq-revoked_at later k
      (insert jti (now + seconds (max ttl_seconds 1)) (prune now store)),
  is_revoked-eq-revoked_at later k store,
  prune_keeps now later k store u h,
  revoked_at-insert later jti k (now + seconds (max ttl_seconds 1)) (prune now store),
)

-- Asking about one identifier, which may remove it, changes no later answer about any.
pub is_revoked_keeps :
    (now later : ℕ) (jti k : String) (store : TokenStore)
    → now ≤ later
    → (is_revoked later k (is_revoked now jti store).1).0 ≡ (is_revoked later k store).0
is_revoked_keeps now later jti k store h = ground (
  arith,
  asked_keeps now later jti k store h,
  is_revoked-eq-revoked_at later k store,
  is_revoked-eq-revoked_at later k (is_revoked now jti store).1,
)

pub is_revoked-HasUniqueKeys :
    (now : ℕ) (jti : String) (store : TokenStore)
    → HasUniqueKeys store
    → HasUniqueKeys (is_revoked now jti store).1
unfolding is_revoked
is_revoked-HasUniqueKeys now jti store u = ground (arith, erase-HasUniqueKeys jti store u)
