-- ===== src/Security/Throttle/Lockout.antt =====
-- When an identity is locked out, and for how long.
use multi_platform_crypto_tr.Base.{
  ℕ, ◌+◌, ◌<◌, ◌≡◌, refl, String, false, ◌&&◌, Option, none, some, List, [], ◌∷◌, arith, eq_iff,
  str_eq, length, leb, ltb, if◌then◌else◌,
}
use multi_platform_crypto_tr.Base.Dict.{lookup, erase, lookup-insert_self, lookup-erase}
use multi_platform_crypto_tr.Security.Time.{seconds}
use multi_platform_crypto_tr.Security.Words.{Words}
use multi_platform_crypto_tr.Security.Throttle.{
  Entry, Throttle, entry_or_new, failed, normalise, is_locked, record_failure, record_success,
}

module _ (w : Words) where
  -- Failed attempts one after another, at these times.
  pub record_failures : List ℕ → String → Throttle → Throttle
  record_failures [] identity t = t
  record_failures (now ∷ times) identity t =
      record_failures times identity (record_failure w now identity t)

  pub settings-record_failure :
      (now : ℕ) (identity : String) (t : Throttle)
      → ((record_failure w now identity t).max_attempts ≡ t.max_attempts)
        × ((record_failure w now identity t).lockout_seconds ≡ t.lockout_seconds)
  unfolding record_failure
  settings-record_failure now identity t = (refl, refl)

  settings-record_failures :
      (times : List ℕ) (identity : String) (t : Throttle)
      → ((record_failures times identity t).max_attempts ≡ t.max_attempts)
        × ((record_failures times identity t).lockout_seconds ≡ t.lockout_seconds)
  unfolding record_failures
  settings-record_failures [] identity t = (refl, refl)
  settings-record_failures (now ∷ times) identity t = ground (
    arith,
    settings-record_failures times identity (record_failure w now identity t),
    settings-record_failure now identity t,
  )

  abbrev failures_of : Option Entry → ℕ
  failures_of none = 0
  failures_of (some e) = e.failures

  abbrev locked_of : Option Entry → ℕ
  locked_of none = 0
  locked_of (some e) = e.locked_until

  -- The failures counted for an identity, and the end of its lock, 0 if it has none.
  unfoldable pub failures_at : String → Throttle → ℕ
  failures_at identity t = failures_of (lookup (normalise w identity) t.entries)

  unfoldable pub locked_at : String → Throttle → ℕ
  locked_at identity t = locked_of (lookup (normalise w identity) t.entries)

  -- An identity is locked exactly before the end of its lock.
  pub is_locked-eq-ltb :
      (now : ℕ) (identity : String) (t : Throttle)
      → (is_locked w now identity t).0 ≡ ltb now (locked_at identity t)
  unfolding is_locked locked_at
  is_locked-eq-ltb now identity t = ground arith

  -- With no lock, asking changes nothing.
  pub unlocked_keeps :
      (now : ℕ) (identity : String) (t : Throttle)
      → locked_at identity t ≡ 0
      → (is_locked w now identity t).1 ≡ t
  unfolding is_locked locked_at
  unlocked_keeps now identity t e = ground arith

  pub failures_at-record_failure :
      (now : ℕ) (identity : String) (t : Throttle)
      → failures_at identity (record_failure w now identity t) ≡ failures_at identity t + 1
  unfolding failures_at record_failure
  failures_at-record_failure now identity t =
      let key = normalise w identity in
      let entry = failed w now t (entry_or_new w (lookup key t.entries)) in
      rw (lookup-insert_self key entry t.entries) (ground arith)

  pub locked_at-record_failure :
      (now : ℕ) (identity : String) (t : Throttle)
      → locked_at identity (record_failure w now identity t) ≡ (
          if leb t.max_attempts (failures_at identity t + 1)
          then now + seconds t.lockout_seconds
          else locked_at identity t)
  unfolding failures_at locked_at record_failure
  locked_at-record_failure now identity t =
      let key = normalise w identity in
      let entry = failed w now t (entry_or_new w (lookup key t.entries)) in
      rw (lookup-insert_self key entry t.entries) (ground arith)

  -- No lock below the threshold.
  abbrev IsTracked : String → Throttle → Type 0
  IsTracked identity t = failures_at identity t < t.max_attempts → locked_at identity t ≡ 0

  tracked :
      (times : List ℕ) (identity : String) (t : Throttle)
      → IsTracked identity t
      → IsTracked identity (record_failures times identity t)
        × (failures_at identity (record_failures times identity t)
            ≡ failures_at identity t + length times)
  unfolding record_failures
  tracked [] identity t h = (h, omega arith)
  tracked (now ∷ times) identity t h =
      let t' = record_failure w now identity t in
      let step : IsTracked identity t' = ground (
        arith,
        settings-record_failure now identity t,
        failures_at-record_failure now identity t,
        locked_at-record_failure now identity t,
      ) in
      let (kept, counted) = tracked times identity t' step in
      (kept, omega (arith, counted, failures_at-record_failure now identity t))

  fresh :
      (identity : String) (t : Throttle)
      → lookup (normalise w identity) t.entries ≡ none
      → (failures_at identity t ≡ 0) × (locked_at identity t ≡ 0)
  unfolding failures_at locked_at
  fresh identity t e = rw e (refl, refl)

  -- After failed attempts at `times` and then one at `now`, all by an identity with no entry, it is
  -- locked out at `later` exactly if there were at least `max_attempts` of them and `later` lies
  -- before the end of the lockout that the last of them began.
  pub locks_exactly :
      (times : List ℕ) (now later : ℕ) (identity : String) (t : Throttle)
      → lookup (normalise w identity) t.entries ≡ none
      → (is_locked w later identity
          (record_failure w now identity (record_failures times identity t))).0
        ≡ (leb t.max_attempts (length times + 1) && ltb later (now + seconds t.lockout_seconds))
  locks_exactly times now later identity t e =
      let t' = record_failures times identity t in
      let start = fresh identity t e in
      let along = tracked times identity t (λ below. start.1) in
      ground (
        arith,
        is_locked-eq-ltb later identity (record_failure w now identity t'),
        locked_at-record_failure now identity t',
        settings-record_failures times identity t,
        start,
        along,
      )

  -- A success forgets the failures and the lock of its identity, so that it is not locked out at any
  -- time, and changes neither the failures nor the lock of an identity with another key.
  pub record_success_clears :
      (now : ℕ) (identity other : String) (t : Throttle)
      → ((is_locked w now identity (record_success w identity t)).0 ≡ false)
        × (failures_at identity (record_success w identity t) ≡ 0)
        × (lookup (normalise w other) (record_success w identity t).entries ≡ (
            if str_eq (normalise w identity) (normalise w other)
            then none
            else lookup (normalise w other) t.entries))
  unfolding record_success
  record_success_clears now identity other t =
      let key = normalise w identity in
      let gone : lookup key (erase key t.entries) ≡ none =
        ground (arith, lookup-erase key key t.entries, eq_iff key key) in
      let start = fresh identity (record t { entries = erase key t.entries }) gone in
      (
        ground (
          arith,
          start,
          is_locked-eq-ltb now identity (record t { entries = erase key t.entries }),
        ),
        start.0,
        lookup-erase key (normalise w other) t.entries,
      )
