-- ===== src/Api/RateLimiter/Window.antt =====
-- Buckets in ascending order, and what the last minute holds of them.
use multi_platform_crypto_tr.Base.{
  ℕ, ◌+◌, ◌-◌, ◌≤◌, ◌≡◌, refl, inl, inr, true, false, List, [], ◌∷◌, ◌++◌, arith, length, ltb, All,
  Bool-cases,
}
use multi_platform_crypto_tr.Api.RateLimiter.{window, drop_old, is_stale}
use multi_platform_crypto_tr.Api.RateLimiter.Spec.{count_within}

abbrev pub IsAscending : List ℕ → Type 0
IsAscending [] = Unit
IsAscending (t ∷ ts) = All (λ s. t ≤ s) ts × IsAscending ts

-- No time lies after `now`.
abbrev pub UpTo : ℕ → List ℕ → Type 0
UpTo now ts = All (λ t. t ≤ now) ts

pub count_within-append :
    (now : ℕ) (xs ys : List ℕ)
    → count_within now (xs ++ ys) ≡ count_within now xs + count_within now ys
unfolding count_within
count_within-append now [] ys = omega arith
count_within-append now (x ∷ xs) ys = omega (arith, count_within-append now xs ys)

-- What is dropped now is out of every later minute.
pub count_within-drop_old :
    (now later : ℕ) (ts : List ℕ)
    → now ≤ later
    → count_within later (drop_old now ts) ≡ count_within later ts
unfolding count_within drop_old
count_within-drop_old now later [] h = refl
count_within-drop_old now later (t ∷ ts) h = ground (arith, count_within-drop_old now later ts h)

each_within :
    (now t : ℕ) (ts : List ℕ)
    → ltb window (now - t) ≡ false
    → All (λ s. t ≤ s) ts
    → count_within now ts ≡ length ts
unfolding count_within
each_within now t [] e all = refl
each_within now t (s ∷ ts) e (h, all) = ground (arith, each_within now t ts e all)

pub length-drop_old :
    (now : ℕ) (ts : List ℕ) → IsAscending ts → length (drop_old now ts) ≡ count_within now ts
unfolding count_within drop_old
length-drop_old now [] h = refl
length-drop_old now (t ∷ ts) (low, h) = elim (Bool-cases (ltb window (now - t))) [
  | inl old ↦ ground (arith, old, length-drop_old now ts h)
  | inr young ↦ ground (arith, young, each_within now t ts young low)
]

pub drop_old-IsAscending : (now : ℕ) (ts : List ℕ) → IsAscending ts → IsAscending (drop_old now ts)
unfolding drop_old
drop_old-IsAscending now [] h = tt
drop_old-IsAscending now (t ∷ ts) (low, h) = ground (arith, drop_old-IsAscending now ts h, low, h)

pub drop_old-UpTo : (now n : ℕ) (ts : List ℕ) → UpTo n ts → UpTo n (drop_old now ts)
unfolding drop_old
drop_old-UpTo now n [] h = tt
drop_old-UpTo now n (t ∷ ts) (low, h) = ground (arith, drop_old-UpTo now n ts h, low, h)

below-append :
    (t now : ℕ) (ts : List ℕ) → t ≤ now → All (λ s. t ≤ s) ts → All (λ s. t ≤ s) (ts ++ now ∷ [])
below-append t now [] h all = (h, tt)
below-append t now (s ∷ ts) h (low, all) = (low, below-append t now ts h all)

pub append-IsAscending :
    (now : ℕ) (ts : List ℕ) → IsAscending ts → UpTo now ts → IsAscending (ts ++ now ∷ [])
append-IsAscending now [] h up = (tt, tt)
append-IsAscending now (t ∷ ts) (low, h) (le, up) =
    (below-append t now ts le low, append-IsAscending now ts h up)

pub append-UpTo : (now : ℕ) (ts : List ℕ) → UpTo now ts → UpTo now (ts ++ now ∷ [])
append-UpTo now [] up = (omega arith, tt)
append-UpTo now (t ∷ ts) (le, up) = (le, append-UpTo now ts up)

pub later-UpTo : (now later : ℕ) (ts : List ℕ) → now ≤ later → UpTo now ts → UpTo later ts
later-UpTo now later [] h up = tt
later-UpTo now later (t ∷ ts) h (le, up) = (omega arith, later-UpTo now later ts h up)

-- A stale bucket holds nothing of any later minute.
pub count_within_stale :
    (now later : ℕ) (ts : List ℕ)
    → now ≤ later
    → IsAscending ts
    → is_stale now ts ≡ true
    → count_within later ts ≡ 0
unfolding count_within is_stale
count_within_stale now later [] h asc stale = refl
count_within_stale now later (t ∷ []) h asc stale = ground arith
count_within_stale now later (t ∷ s ∷ ts) h ((le, low), asc) stale =
    let rest = count_within_stale now later (s ∷ ts) h asc stale in ground (arith, rest, le)
