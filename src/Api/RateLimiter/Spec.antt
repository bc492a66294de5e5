-- ===== src/Api/RateLimiter/Spec.antt =====
-- What the limiter promises: a request passes if fewer than `limit` requests of its client passed in
-- the minute before. The specification forgets nothing and has no buckets to clean.
use multi_platform_crypto_tr.Base.{
  ℕ, ◌+◌, ◌-◌, String, Bool, true, false, List, [], ◌∷◌, ◌++◌, str_eq, ltb, if◌then◌else◌,
}
use multi_platform_crypto_tr.Api.RateLimiter.{window, is_exempt}

-- For each client, the times of the requests that passed, the oldest first.
abbrev pub History : Type 0
History = String → List ℕ

-- those of the last minute
unfoldable pub count_within : ℕ → List ℕ → ℕ
count_within now [] = 0
count_within now (t ∷ ts) = (if ltb window (now - t) then 0 else 1) + count_within now ts

abbrev pub note : String → ℕ → History → History
note client now h = λ k. if str_eq client k then h k ++ now ∷ [] else h k

abbrev pub may_pass : ℕ → ℕ → String → History → Bool
may_pass limit now client h = ltb (count_within now (h client)) limit

-- One request by the specification.
unfoldable pub spec_step : ℕ → List String → ℕ → String → String → History → Bool × History
spec_step limit exempt now path client h =
    if is_exempt path exempt
    then (true, h)
    else if may_pass limit now client h
    then (true, note client now h)
    else (false, h)
