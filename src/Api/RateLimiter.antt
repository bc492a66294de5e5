-- ===== src/Api/RateLimiter.antt =====
-- `InMemoryRateLimiter` of app/api/middleware.py: `dispatch` and `_maybe_sweep`. Clock readings are in
-- nanoseconds; the client is the address that `resolve_client_ip` returned, or "unknown".
pub mod Spec
pub mod Window
pub mod Follows
pub mod Refines
pub mod Bounds
mod Tests
use multi_platform_crypto_tr.Base.{
  ℕ, ◌+◌, ◌-◌, ◌/◌, String, Bool, true, false, ◌||◌, Option, none, some, List, [], ◌∷◌, ◌++◌,
  str_eq, length, ltb, leb, if◌then◌else◌,
}
use multi_platform_crypto_tr.Base.Dict.{Dict, lookup, insert}
use multi_platform_crypto_tr.Base.Dict.Sweep.{sweep}
use multi_platform_crypto_tr.Security.Time.{second, seconds}

-- `_window`: a minute
abbrev pub window : ℕ
window = seconds 60

-- `_hits` holds the admitted requests of each client, the oldest first.
pub record RateLimiter : Type 0 where
  pub limit : ℕ
  pub hits : Dict (List ℕ)
  pub last_sweep : ℕ
  pub exempt : List String

-- The request goes on to the application, or is answered with `Retry-After`.
pub data Answer : Type 0 where
  passes : Answer
  limited : ℕ → Answer

-- `path in self._exempt`
unfoldable pub is_exempt : String → List String → Bool
is_exempt path [] = false
is_exempt path (p ∷ rest) = str_eq p path || is_exempt path rest

-- `while bucket and now - bucket[0] > window: bucket.popleft()`
unfoldable pub drop_old : ℕ → List ℕ → List ℕ
drop_old now [] = []
drop_old now (t ∷ ts) = let rest = drop_old now ts in if ltb window (now - t) then rest else t ∷ ts

-- `self._hits[client]` of a `defaultdict`
abbrev pub bucket_of : Option (List ℕ) → List ℕ
bucket_of none = []
bucket_of (some ts) = ts

-- `max(0, int(window - (now - bucket[0])))` in whole seconds
abbrev pub retry_after : ℕ → List ℕ → ℕ
retry_after now [] = 60
retry_after now (t ∷ ts) = (window - (now - t)) / second

-- `not hits or now - hits[-1] > window`
unfoldable pub is_stale : ℕ → List ℕ → Bool
is_stale now [] = true
is_stale now (t ∷ []) = ltb window (now - t)
is_stale now (t ∷ s ∷ ts) = is_stale now (s ∷ ts)

-- `_maybe_sweep`
unfoldable pub maybe_sweep : ℕ → RateLimiter → RateLimiter
maybe_sweep now l =
    if ltb (now - l.last_sweep) window
    then l
    else record l { hits = sweep (is_stale now) l.hits; last_sweep = now }

admit : ℕ → String → List ℕ → RateLimiter → Answer × RateLimiter
admit now client bucket l =
    if leb l.limit (length bucket)
    then (limited (retry_after now bucket), record l { hits = insert client bucket l.hits })
    else (passes, maybe_sweep now (record l { hits = insert client (bucket ++ now ∷ []) l.hits }))

unfoldable pub dispatch : ℕ → String → String → RateLimiter → Answer × RateLimiter
unfolding admit
dispatch now path client l =
    if is_exempt path l.exempt
    then (passes, l)
    else admit now client (drop_old now (bucket_of (lookup client l.hits))) l
