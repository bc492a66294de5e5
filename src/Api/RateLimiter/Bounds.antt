-- ===== src/Api/RateLimiter/Bounds.antt =====
-- How many requests of one client pass in a minute.
use multi_platform_crypto_tr.Base.{
  ℕ, ◌+◌, ◌≤◌, ◌≡◌, ap, inl, inr, String, not, ◌&&◌, List, [], ◌∷◌, arith, eq_iff, str_eq, All,
  Bool-cases, if◌then◌else◌,
}
use multi_platform_crypto_tr.Api.RateLimiter.{RateLimiter, is_exempt, dispatch}
use multi_platform_crypto_tr.Api.RateLimiter.Spec.{History, count_within, spec_step}
use multi_platform_crypto_tr.Api.RateLimiter.Window.{count_within-append}
use multi_platform_crypto_tr.Api.RateLimiter.Refines.{
  Tracks, passed, dispatch_refines, Arrival, IsInOrder, fresh, fresh-Tracks,
}

-- When the requests of a client, other than those for exempt paths, passed.
pub passed_times : String → List Arrival → RateLimiter → List ℕ
passed_times client [] l = []
passed_times client (r ∷ rest) l =
    let (answer, l') = dispatch r.now r.path r.client l in
    let later = passed_times client rest l' in
    if passed answer && str_eq r.client client && not (is_exempt r.path l.exempt)
    then r.now ∷ later
    else later

count_within_later :
    (now later : ℕ) (ts : List ℕ) → now ≤ later → count_within later ts ≤ count_within now ts
unfolding count_within
count_within_later now later [] h = omega arith
count_within_later now later (t ∷ ts) h = ground (arith, count_within_later now later ts h)

abbrev AllBounded : ℕ → ℕ → History → Type 0
AllBounded limit now h = (c : String) (t : ℕ) → now ≤ t → count_within t (h c) ≤ limit

step_bounded :
    (limit prev now : ℕ) (exempt : List String) (path client : String) (h : History)
    → prev ≤ now
    → AllBounded limit prev h
    → AllBounded limit now (spec_step limit exempt now path client h).1
unfolding spec_step
step_bounded limit prev now exempt path client h le b c t later =
    let before = b c t (omega arith) in
    let shrinks = count_within_later now t (h c) later in
    let adds = count_within-append t (h c) (now ∷ []) in
    elim (Bool-cases (str_eq client c)) [
      | inl same ↦
          let e : client ≡ c = (eq_iff client c).0 same in
          let moved = ap (λ k. count_within now (h k)) e in
          unfold count_within in ground (arith, same, before, shrinks, adds, moved)
      | inr other ↦ ground (arith, other, before)
    ]

passed_bounded :
    (limit prev end : ℕ) (exempt : List String) (client : String) (requests : List Arrival)
    (l : RateLimiter) (h : History)
    → IsInOrder prev requests
    → prev ≤ end
    → All (λ r. r.now ≤ end) requests
    → Tracks limit exempt prev l h
    → AllBounded limit prev h
    → count_within end (h client) + count_within end (passed_times client requests l) ≤ limit
unfolding passed_times spec_step count_within
passed_bounded limit prev end exempt client [] l h ordered lo hi t b =
    omega (arith, b client end lo)
passed_bounded limit prev end exempt client (r ∷ rest) l h (le, ordered) lo (now_le, hi) t b =
    let (same, next) = dispatch_refines limit prev r.now exempt r.path r.client l h le t in
    let h' = (spec_step limit exempt r.now r.path r.client h).1 in
    let ih =
      passed_bounded limit r.now end exempt client rest (dispatch r.now r.path r.client l).1 h'
        ordered now_le hi next (step_bounded limit prev r.now exempt r.path r.client h le b) in
    let adds = count_within-append end (h client) (r.now ∷ []) in
    ground (arith, same, ih, adds, t.exempt_is, eq_iff r.client client)

-- Of the requests of one client, other than those for exempt paths, never more than `limit` pass in
-- any minute that ends at or after the last request, with clock readings that never go back.
pub limit_per_minute :
    (limit end : ℕ) (exempt : List String) (client : String) (requests : List Arrival)
    → IsInOrder 0 requests
    → All (λ r. r.now ≤ end) requests
    → count_within end (passed_times client requests (fresh limit exempt)) ≤ limit
limit_per_minute limit end exempt client requests ordered hi = omega (
  arith,
  passed_bounded limit 0 end exempt client requests (fresh limit exempt) (λ c. []) ordered
      (omega arith) hi (fresh-Tracks limit exempt) (λ c t le. unfold count_within in omega arith),
)
