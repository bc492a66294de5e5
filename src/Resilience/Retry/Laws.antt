-- ===== src/Resilience/Retry/Laws.antt =====
-- How often the wrapper of `async_retry` calls, how long it pauses, and how it ends.
use multi_platform_crypto_tr.Base.{
  ℕ, zero, suc, ◌+◌, ◌*◌, ◌^◌, ◌≡◌, refl, Bool, true, false, Option, none, some, List, [], ◌∷◌, min,
  arith, length, ap, ◌⊎◌,
}
use native.Mathlib.Nat.{pow-suc}
use multi_platform_crypto_tr.Resilience.Retry.{
  Outcome, returns, raises, Retried, returned, raised, Run, counted, paused, wrapper_loop,
  async_retry,
}

-- The exponential backoff, capped: the pauses before attempts `i + 2`, `i + 3`, and so on.
abbrev pub backoff : ℕ → ℕ → ℕ → ℕ → List ℕ
backoff base_delay max_delay i zero = []
backoff base_delay max_delay i (suc n) =
    min (base_delay * 2 ^ i) max_delay ∷ backoff base_delay max_delay (suc i) n

length-backoff : (base_delay max_delay i n : ℕ) → length (backoff base_delay max_delay i n) ≡ n
length-backoff base_delay max_delay i zero = refl
length-backoff base_delay max_delay i (suc n) =
    ap suc (length-backoff base_delay max_delay (suc i) n)

doubled : (base_delay i : ℕ) → base_delay * 2 ^ i * 2 ≡ base_delay * 2 ^ suc i
doubled base_delay i = rw pow-suc (grind arith)

module _ {E A : Type 0} (caught : E → Bool) (max_delay : ℕ) (func : ℕ → Outcome E A) where
  -- The attempts from number `i` to number `i + n - 1` raise exceptions that are caught.
  abbrev pub Fails : ℕ → ℕ → Type 0
  Fails i zero = Unit
  Fails i (suc n) = ((e : E) × (func i ≡ raises e) × (caught e ≡ true)) × Fails (suc i) n

  -- The run that follows caught failures with these pauses.
  abbrev after_pauses : List ℕ → Run E A → Run E A
  after_pauses [] r = r
  after_pauses (d ∷ ds) r = counted (paused d (after_pauses ds r))

  after_pauses-once :
      (ds : List ℕ) (x : Retried E A)
      → after_pauses ds (record { result = x; pauses = []; calls = 1 })
        ≡ record { result = x; pauses = ds; calls = suc (length ds) }
  after_pauses-once [] x = refl
  after_pauses-once (d ∷ ds) x = ground (arith, after_pauses-once ds x)

  after_failures :
      (base_delay n more rounds i delay k : ℕ) (last_exc : Option E)
      → rounds ≡ n + suc more
      → delay ≡ base_delay * 2 ^ i
      → k ≡ i + n
      → Fails i n
      → wrapper_loop caught max_delay func rounds i delay last_exc
        ≡ after_pauses
            (backoff base_delay max_delay i n)
            (wrapper_loop caught max_delay func (suc more) k (base_delay * 2 ^ k) none)
  unfolding wrapper_loop
  after_failures base_delay n more zero i delay k last_exc r d p f = absurd (omega arith)
  after_failures base_delay zero more (suc rounds) i delay k last_exc r d p f =
      let same_round : rounds ≡ more = omega arith in
      let same_index : k ≡ i = omega arith in rw (same_round, same_index, d)
  after_failures base_delay (suc n) more (suc rounds) i delay k last_exc r d p
        ((x, raised_x, caught_x), f) =
      let later : wrapper_loop caught max_delay func rounds (suc i) (delay * 2) (some x)
          ≡ after_pauses (backoff base_delay max_delay (suc i) n)
              (wrapper_loop caught max_delay func (suc more) k (base_delay * 2 ^ k) none) =
        after_failures base_delay n more rounds (suc i) (delay * 2) k (some x) (omega arith)
          (rw d (doubled base_delay i)) (omega arith) f in
      ground (arith, later)

  -- the last call of the loop, and the loop that ends with it
  abbrev pub EndsWith : Outcome E A → ℕ → Retried E A → Type 0
  EndsWith (returns a) more x = x ≡ returned a
  EndsWith (raises e) more x =
      (x ≡ raised e) × ((caught e ≡ false) ⊎ ((caught e ≡ true) × (more ≡ 0)))

  last_call :
      (more k delay : ℕ) (x : Retried E A)
      → EndsWith (func k) more x
      → wrapper_loop caught max_delay func (suc more) k delay none
        ≡ record { result = x; pauses = []; calls = 1 }
  unfolding wrapper_loop
  last_call more k delay x h = ground arith

  -- The wrapper ends with attempt `n + 1`, if the attempts before it raised exceptions that are
  -- caught, and this one returns, raises an exception that is not caught, or is the last one: with
  -- its value or its exception, after `n + 1` calls and the `n` pauses of the capped exponential
  -- backoff.
  pub async_retry_ends :
      (base_delay n more : ℕ) (x : Retried E A)
      → Fails 0 n
      → EndsWith (func n) more x
      → async_retry caught max_delay func (n + suc more) base_delay
        ≡ record { result = x; pauses = backoff base_delay max_delay 0 n; calls = suc n }
  unfolding async_retry
  async_retry_ends base_delay n more x f h = rw (
    after_failures base_delay n more (n + suc more) 0 base_delay n none refl (omega arith)
        (omega arith) f,
    last_call more n (base_delay * 2 ^ n) x h,
    after_pauses-once (backoff base_delay max_delay 0 n) x,
    length-backoff base_delay max_delay 0 n,
  )
