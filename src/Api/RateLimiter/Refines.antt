-- ===== src/Api/RateLimiter/Refines.antt =====
-- The limiter, with its buckets that are cut and swept, answers as the specification does.
use multi_platform_crypto_tr.Base.{
  ℕ, ◌-◌, ◌≤◌, ◌≡◌, refl, inl, inr, String, Bool, true, false, List, [], ◌∷◌, ◌++◌, arith, eq_iff,
  str_eq, length, ltb, leb, Bool-cases, if◌then◌else◌,
}
use multi_platform_crypto_tr.Base.Dict.{lookup, insert, HasUniqueKeys, insert-HasUniqueKeys}
use multi_platform_crypto_tr.Base.Dict.Sweep.{sweep-HasUniqueKeys}
use multi_platform_crypto_tr.Api.RateLimiter.{
  window, RateLimiter, Answer, passes, limited, is_exempt, drop_old, is_stale, maybe_sweep, admit,
  dispatch,
}
use multi_platform_crypto_tr.Api.RateLimiter.Spec.{History, count_within, note, spec_step}
use multi_platform_crypto_tr.Api.RateLimiter.Window.{length-drop_old}
use multi_platform_crypto_tr.Api.RateLimiter.Follows.{
  bucket_in, Follows, later-Follows, drop_old-Follows, append-Follows, insert-Follows,
  sweep-Follows,
}

pub record Tracks (limit : ℕ) (exempt : List String) (now : ℕ) (l : RateLimiter) (h : History)
    : Type 0 where
  pub limit_is : l.limit ≡ limit
  pub exempt_is : l.exempt ≡ exempt
  pub unique : HasUniqueKeys l.hits
  pub follows : (c : String) → Follows now (bucket_in c l.hits) (h c)

maybe_sweep-Tracks :
    (limit now : ℕ) (exempt : List String) (l : RateLimiter) (h : History)
    → Tracks limit exempt now l h
    → Tracks limit exempt now (maybe_sweep now l) h
unfolding maybe_sweep
maybe_sweep-Tracks limit now exempt l h t = elim (Bool-cases (ltb (now - l.last_sweep) window)) [
  | inl recent ↦ rw recent t
  | inr due ↦ rw due (record {
    limit_is = t.limit_is;
    exempt_is = t.exempt_is;
    unique = sweep-HasUniqueKeys (is_stale now) l.hits t.unique;
    follows = λ c. sweep-Follows now l.hits (h c) c t.unique (t.follows c);
  })
]

pub passed : Answer → Bool
passed passes = true
passed (limited seconds) = false

write-Tracks :
    (limit prev now : ℕ) (exempt : List String) (client : String) (bucket past : List ℕ)
    (l : RateLimiter) (h h' : History)
    → prev ≤ now
    → ((c : String) → h' c ≡ (if str_eq client c then past else h c))
    → Tracks limit exempt prev l h
    → Follows now bucket past
    → Tracks limit exempt now (record l { hits = insert client bucket l.hits; exempt = exempt }) h'
write-Tracks limit prev now exempt client bucket past l h h' le e t f = record {
  limit_is = t.limit_is;
  exempt_is = refl;
  unique = insert-HasUniqueKeys client bucket l.hits t.unique;
  follows = λ c. rw (e c) (insert-Follows prev now client bucket past l.hits h le t.follows f c);
}

-- One request: the same answer, and the limiter still tracks the history.
pub dispatch_refines :
    (limit prev now : ℕ) (exempt : List String) (path client : String) (l : RateLimiter)
    (h : History)
    → prev ≤ now
    → Tracks limit exempt prev l h
    → (passed (dispatch now path client l).0 ≡ (spec_step limit exempt now path client h).0)
      × Tracks limit exempt now
          (dispatch now path client l).1
          (spec_step limit exempt now path client h).1
unfolding dispatch spec_step passed admit
dispatch_refines limit prev now exempt path client l h le t =
    let bucket = drop_old now (bucket_in client l.hits) in
    let f = drop_old-Follows prev now (bucket_in client l.hits) (h client) le (t.follows client) in
    let same : length bucket ≡ count_within now (h client) = omega (
      arith,
      length-drop_old now (bucket_in client l.hits) (t.follows client).asc,
      (t.follows client).counts now le,
    ) in
    elim (Bool-cases (is_exempt path exempt)) [
      | inl free ↦
          rw (t.exempt_is, free)
            (
              refl,
              record {
                limit_is = t.limit_is;
                exempt_is = refl;
                unique = t.unique;
                follows = λ c. later-Follows prev now (bucket_in c l.hits) (h c) le (t.follows c);
              },
            )
      | inr checked ↦ elim (Bool-cases (ltb (count_within now (h client)) limit)) [
        | inl few ↦
            let goes : leb l.limit (length bucket) ≡ false =
              ground (arith, same, few, t.limit_is) in
            rw (t.exempt_is, checked, few, goes)
              (
                refl,
                maybe_sweep-Tracks limit now exempt
                    (record l { hits = insert client (bucket ++ now ∷ []) l.hits; exempt = exempt })
                    (note client now h)
                    (write-Tracks limit prev now exempt client (bucket ++ now ∷ [])
                      (h client ++ now ∷ []) l h (note client now h) le
                      (λ c. ground (arith, eq_iff client c)) t
                      (append-Follows now bucket (h client) f)),
              )
        | inr many ↦
            let stops : leb l.limit (length bucket) ≡ true =
              ground (arith, same, many, t.limit_is) in
            rw (t.exempt_is, checked, many, stops)
              (
                refl,
                write-Tracks limit prev now exempt client bucket (h client) l h h le
                    (λ c. ground (arith, eq_iff client c)) t f,
              )
      ]
    ]

-- A request: when, for which path, by which client.
pub record Arrival : Type 0 where
  pub now : ℕ
  pub path : String
  pub client : String

-- The clock never goes back.
abbrev pub IsInOrder : ℕ → List Arrival → Type 0
IsInOrder prev [] = Unit
IsInOrder prev (r ∷ rest) = (prev ≤ r.now) × IsInOrder r.now rest

pub answers : List Arrival → RateLimiter → List Bool
answers [] l = []
answers (r ∷ rest) l =
    let (answer, l') = dispatch r.now r.path r.client l in passed answer ∷ answers rest l'

pub spec_answers : ℕ → List String → List Arrival → History → List Bool
spec_answers limit exempt [] h = []
spec_answers limit exempt (r ∷ rest) h =
    let (answer, h') = spec_step limit exempt r.now r.path r.client h in
    answer ∷ spec_answers limit exempt rest h'

run_refines :
    (limit prev : ℕ) (exempt : List String) (requests : List Arrival) (l : RateLimiter)
    (h : History)
    → IsInOrder prev requests
    → Tracks limit exempt prev l h
    → answers requests l ≡ spec_answers limit exempt requests h
unfolding answers spec_answers
run_refines limit prev exempt [] l h ordered t = refl
run_refines limit prev exempt (r ∷ rest) l h (le, ordered) t =
    let (same, next) = dispatch_refines limit prev r.now exempt r.path r.client l h le t in
    cc (
      same,
      run_refines limit r.now exempt rest (dispatch r.now r.path r.client l).1
          (spec_step limit exempt r.now r.path r.client h).1 ordered next,
    )

abbrev pub fresh : ℕ → List String → RateLimiter
fresh limit exempt = record { limit = limit; hits = []; last_sweep = 0; exempt = exempt }

pub fresh-Tracks :
    (limit : ℕ) (exempt : List String) → Tracks limit exempt 0 (fresh limit exempt) (λ client. [])
unfolding lookup
fresh-Tracks limit exempt = record {
  limit_is = refl;
  exempt_is = refl;
  unique = tt;
  follows = λ c. record { asc = tt; upto = tt; counts = λ t h. refl };
}

-- For any requests, with clock readings that never go back, the limiter lets through exactly those
-- that the specification lets through, which remembers every request that passed and allows fewer
-- than `limit` of a client in the minute before: cutting buckets and sweeping idle ones is not seen.
pub limiter_refines_spec :
    (limit : ℕ) (exempt : List String) (requests : List Arrival)
    → IsInOrder 0 requests
    → answers requests (fresh limit exempt) ≡ spec_answers limit exempt requests (λ client. [])
limiter_refines_spec limit exempt requests ordered =
    run_refines limit 0 exempt requests (fresh limit exempt) (λ client. []) ordered
      (fresh-Tracks limit exempt)
