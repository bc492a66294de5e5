-- ===== src/Security/Throttle.antt =====
-- `InMemoryLoginThrottle` of app/security/throttle.py. Each method takes the reading of the clock.
pub mod Lockout
mod Tests
use multi_platform_crypto_tr.Base.{
  ℕ, ◌+◌, ◌-◌, ◌/◌, String, Bool, true, false, Option, none, some, leb, ltb, ◌==◌, if◌then◌else◌,
}
use multi_platform_crypto_tr.Base.Dict.{Dict, lookup, insert, erase}
use multi_platform_crypto_tr.Security.Time.{second, seconds}
use multi_platform_crypto_tr.Security.Words.{Words}

-- `_Entry`; a `locked_until` of 0 is falsy, and means that no lock was set
pub record Entry : Type 0 where
  pub failures : ℕ
  pub locked_until : ℕ

pub record Throttle : Type 0 where
  pub max_attempts : ℕ
  pub lockout_seconds : ℕ
  pub entries : Dict Entry

module _ (w : Words) where
  -- `_normalise`
  unfoldable pub normalise : String → String
  normalise identity = w.lower (w.strip identity)

  locked_by : Option Entry → ℕ → String → Throttle → Bool × Throttle
  locked_by none now key t = (false, t)
  locked_by (some entry) now key t =
      if entry.locked_until == 0
      then (false, t)
      else if ltb now entry.locked_until
      then (true, t)
      else (false, record t { entries = erase key t.entries })

  -- `is_locked`, with the throttle that it leaves
  unfoldable pub is_locked : ℕ → String → Throttle → Bool × Throttle
  unfolding locked_by
  is_locked now identity t =
      let key = normalise identity in locked_by (lookup key t.entries) now key t

  -- `max(0, int(locked_until - now))` in whole seconds; `-` stops at 0 here
  seconds_left : Option Entry → ℕ → ℕ
  seconds_left none now = 0
  seconds_left (some entry) now =
      if entry.locked_until == 0 then 0 else (entry.locked_until - now) / second

  unfoldable pub retry_after : ℕ → String → Throttle → ℕ
  unfolding seconds_left
  retry_after now identity t = seconds_left (lookup (normalise identity) t.entries) now

  -- `setdefault(key, _Entry())`
  abbrev entry_or_new : Option Entry → Entry
  entry_or_new none = record { failures = 0; locked_until = 0 }
  entry_or_new (some entry) = entry

  failed : ℕ → Throttle → Entry → Entry
  failed now t entry = record {
    failures = entry.failures + 1;
    locked_until =
        if leb t.max_attempts (entry.failures + 1)
        then now + seconds t.lockout_seconds
        else entry.locked_until;
  }

  unfoldable pub record_failure : ℕ → String → Throttle → Throttle
  unfolding failed
  record_failure now identity t =
      let key = normalise identity in
      record t {
        entries = insert key (failed now t (entry_or_new (lookup key t.entries))) t.entries;
      }

  unfoldable pub record_success : String → Throttle → Throttle
  record_success identity t = record t { entries = erase (normalise identity) t.entries }
