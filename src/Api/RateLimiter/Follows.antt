-- ===== src/Api/RateLimiter/Follows.antt =====
-- A bucket and the history of its client, which agree about every minute from now on.
use multi_platform_crypto_tr.Base.{
  ℕ, ◌≤◌, ◌≡◌, inl, inr, String, List, [], ◌∷◌, ◌++◌, arith, str_eq, Bool-cases, Option, none, some,
  if◌then◌else◌,
}
use multi_platform_crypto_tr.Base.Dict.{Dict, lookup, insert, lookup-insert, HasUniqueKeys}
use multi_platform_crypto_tr.Base.Dict.Sweep.{sweep, unless, lookup-sweep}
use multi_platform_crypto_tr.Api.RateLimiter.{drop_old, bucket_of, is_stale}
use multi_platform_crypto_tr.Api.RateLimiter.Spec.{History, count_within}
use multi_platform_crypto_tr.Api.RateLimiter.Window.{
  IsAscending, UpTo, count_within-append, count_within-drop_old, drop_old-IsAscending,
  drop_old-UpTo, append-IsAscending, append-UpTo, later-UpTo, count_within_stale,
}

abbrev pub bucket_in : String → Dict (List ℕ) → List ℕ
bucket_in client hits = bucket_of (lookup client hits)

-- The bucket of a client has, from `now` on, what the history has.
pub record Follows (now : ℕ) (bucket past : List ℕ) : Type 0 where
  pub asc : IsAscending bucket
  pub upto : UpTo now bucket
  pub counts : (t : ℕ) → now ≤ t → count_within t past ≡ count_within t bucket

pub later-Follows :
    (now later : ℕ) (bucket past : List ℕ)
    → now ≤ later
    → Follows now bucket past
    → Follows later bucket past
later-Follows now later bucket past le f = record {
  asc = f.asc;
  upto = later-UpTo now later bucket le f.upto;
  counts = λ t h. f.counts t (omega (arith, h));
}

pub drop_old-Follows :
    (now later : ℕ) (bucket past : List ℕ)
    → now ≤ later
    → Follows now bucket past
    → Follows later (drop_old later bucket) past
drop_old-Follows now later bucket past le f = record {
  asc = drop_old-IsAscending later bucket f.asc;
  upto = drop_old-UpTo later later bucket (later-UpTo now later bucket le f.upto);
  counts = λ t h.
      omega (arith, h, f.counts t (omega (arith, h)), count_within-drop_old later t bucket h);
}

pub append-Follows :
    (now : ℕ) (bucket past : List ℕ)
    → Follows now bucket past
    → Follows now (bucket ++ now ∷ []) (past ++ now ∷ [])
append-Follows now bucket past f = record {
  asc = append-IsAscending now bucket f.asc f.upto;
  upto = append-UpTo now bucket f.upto;
  counts = λ t h. omega (
    arith,
    f.counts t h,
    count_within-append t past (now ∷ []),
    count_within-append t bucket (now ∷ []),
  );
}

-- One bucket is written, and the history of its client along with it.
pub insert-Follows :
    (prev now : ℕ) (client : String) (bucket past : List ℕ) (hits : Dict (List ℕ)) (h : History)
    → prev ≤ now
    → ((c : String) → Follows prev (bucket_in c hits) (h c))
    → Follows now bucket past
    → (c : String)
    → Follows now (bucket_in c (insert client bucket hits)) (if str_eq client c then past else h c)
insert-Follows prev now client bucket past hits h le all f c =
    rw (lookup-insert client c bucket hits) (elim (Bool-cases (str_eq client c)) [
      | inl same ↦ rw same f
      | inr other ↦ rw other (later-Follows prev now (bucket_in c hits) (h c) le (all c))
    ])

unless-Follows :
    (now : ℕ) (past : List ℕ) (o : Option (List ℕ))
    → Follows now (bucket_of o) past
    → Follows now (bucket_of (unless (is_stale now) o)) past
unless-Follows now past none f = f
unless-Follows now past (some ts) f = elim (Bool-cases (is_stale now ts)) [
  | inl stale ↦ rw stale (record {
    asc = tt;
    upto = tt;
    counts = λ t h.
        unfold count_within in
        omega (arith, f.counts t h, count_within_stale now t ts h f.asc stale);
  })
  | inr live ↦ rw live f
]

pub sweep-Follows :
    (now : ℕ) (hits : Dict (List ℕ)) (past : List ℕ) (c : String)
    → HasUniqueKeys hits
    → Follows now (bucket_in c hits) past
    → Follows now (bucket_in c (sweep (is_stale now) hits)) past
sweep-Follows now hits past c u f =
    rw (lookup-sweep (is_stale now) c hits u) (unless-Follows now past (lookup c hits) f)
