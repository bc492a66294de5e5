-- ===== src/Analytics/Indicators/Aligned.antt =====
-- Where the indicators are defined.
use multi_platform_crypto_tr.Base.{
  ℕ, zero, suc, ◌+◌, ◌-◌, ◌≤◌, ◌<◌, ◌≡◌, refl, inl, inr, true, false, Option, some, List, [], ◌∷◌,
  ◌++◌, map, arith, length, length-append, ltb, leb, is_none, Bool-cases,
}
use native.Mathlib.Nat.{zero-add}
use multi_platform_crypto_tr.Base.Result.{Result, ok}
use multi_platform_crypto_tr.Exceptions.{AppError}
use multi_platform_crypto_tr.Analytics.Float.{Float, total}
use multi_platform_crypto_tr.Analytics.Indicators.{
  nones, take, drop, slide, smooth, from_seed, sma, ema, wilder_smoothing, changes, rsi_loop, rsi,
  gain, loss, seed, rsi_from, wilder_next, ema_next,
}

-- A series that is undefined before index `k` and defined from it on.
abbrev pub IsDefinedFrom : {A : Type 0} → ℕ → List (Option A) → Type 0
IsDefinedFrom k [] = Unit
IsDefinedFrom zero (x ∷ s) = (is_none x ≡ false) × IsDefinedFrom zero s
IsDefinedFrom (suc k) (x ∷ s) = (is_none x ≡ true) × IsDefinedFrom k s

-- A series was returned; it is as long as its input, and defined from index `k` on.
abbrev pub IsAligned : {A : Type 0} → Result AppError (List (Option A)) → ℕ → ℕ → Type 0
IsAligned {A = A} r n k =
    (out : List (Option A)) × (r ≡ ok out) × (length out ≡ n) × IsDefinedFrom k out

pub length-nones : (A : Type 0) (n : ℕ) → length (nones {A = A} n) ≡ n
unfolding nones
length-nones A zero = refl
length-nones A (suc n) = omega (arith, length-nones A n)

pub nones-IsDefinedFrom : (A : Type 0) (n k : ℕ) → n ≤ k → IsDefinedFrom k (nones {A = A} n)
unfolding nones
nones-IsDefinedFrom A zero k h = tt
nones-IsDefinedFrom A (suc n) zero h = absurd (omega arith)
nones-IsDefinedFrom A (suc n) (suc k) h = (refl, nones-IsDefinedFrom A n k (omega arith))

module _ {A : Type 0} where
  pub prefix-IsDefinedFrom :
      (k j m : ℕ) (s : List (Option A))
      → m ≡ k + j
      → IsDefinedFrom j s
      → IsDefinedFrom m (nones k ++ s)
  unfolding nones
  prefix-IsDefinedFrom zero j m s e h = rw e (rw (zero-add j) h)
  prefix-IsDefinedFrom (suc k) j zero s e h = absurd (omega arith)
  prefix-IsDefinedFrom (suc k) j (suc m) s e h =
      (refl, prefix-IsDefinedFrom k j m s (omega arith) h)

  pub length-drop : (n : ℕ) (xs : List A) → length (drop n xs) ≡ length xs - n
  unfolding drop
  length-drop zero xs = omega arith
  length-drop (suc n) [] = omega arith
  length-drop (suc n) (x ∷ xs) = omega (arith, length-drop n xs)

module _ (fl : Float) where
  open fl use {F}

  slide-all :
      (period : ℕ) (start : F) (new old : List F)
      → length new ≤ length old
      → (length (slide fl period start new old) ≡ length new)
        × IsDefinedFrom 0 (slide fl period start new old)
  unfolding slide
  slide-all period start [] old h = (refl, tt)
  slide-all period start (v ∷ new) [] h = omega arith
  slide-all period start (v ∷ new) (o ∷ old) h =
      ground (arith, slide-all period (fl.add start (fl.sub v o)) new old (omega arith))

  smooth-all :
      (next : F → F → F) (prev : F) (values : List F)
      → (length (smooth fl next prev values) ≡ length values)
        × IsDefinedFrom 0 (smooth fl next prev values)
  unfolding smooth
  smooth-all next prev [] = (refl, tt)
  smooth-all next prev (v ∷ values) = ground (arith, smooth-all next (next prev v) values)

  rsi_loop-all :
      (period : ℕ) (g l : F) (values : List F)
      → (length (rsi_loop fl period g l values) ≡ length values)
        × IsDefinedFrom 0 (rsi_loop fl period g l values)
  unfolding rsi_loop
  rsi_loop-all period g l [] = (refl, tt)
  rsi_loop-all period g l (v ∷ values) = ground (
    arith,
    rsi_loop-all period (wilder_next fl period g (gain fl v)) (wilder_next fl period l (loss fl v))
        values,
  )

  length-changes : (values : List F) → length (changes fl values) ≡ length values - 1
  unfolding changes
  length-changes [] = omega arith
  length-changes (a ∷ []) = omega arith
  length-changes (a ∷ b ∷ rest) = omega (arith, length-changes (b ∷ rest))

  from_seed-IsAligned :
      (values : List F) (period : ℕ) (rest : F → List (Option F))
      → 0 < period
      → ((s : F) → (length (rest s) ≡ length values - period) × IsDefinedFrom 0 (rest s))
      → IsAligned (from_seed fl values period rest) (length values) (period - 1)
  from_seed-IsAligned values period rest pos all =
      let s = seed fl period values in
      elim (Bool-cases (ltb (length values) period)) [
        | inl short ↦ (
          nones (length values),
          ground arith,
          length-nones F (length values),
          nones-IsDefinedFrom F (length values) (period - 1) (ground arith),
        )
        | inr long ↦
            let enough : period ≤ length values = ground arith in
            (
              nones (period - 1) ++ some s ∷ rest s,
              ground arith,
              omega (
                arith,
                length-append (nones (period - 1)) (some s ∷ rest s),
                length-nones F (period - 1),
                (all s).0,
              ),
              prefix-IsDefinedFrom (period - 1) 0 (period - 1) (some s ∷ rest s) (omega arith)
                  (refl, (all s).1),
            )
      ]

  smooth-IsAligned :
      (values : List F) (period : ℕ) (next : F → F → F)
      → 0 < period
      → IsAligned
          (from_seed fl values period (λ s. smooth fl next s (drop period values)))
          (length values)
          (period - 1)
  smooth-IsAligned values period next pos =
      from_seed-IsAligned values period (λ s. smooth fl next s (drop period values)) pos
        (λ s.
          let h = smooth-all next s (drop period values) in
          (omega (arith, h.0, length-drop period values), h.1))

  -- With a period above 0, each of the three moving averages is returned, is as long as its input, and
  -- is defined exactly from index `period - 1` on.
  pub averages-IsAligned :
      (values : List F) (period : ℕ)
      → 0 < period
      → IsAligned (sma fl values period) (length values) (period - 1)
        × IsAligned (ema fl values period) (length values) (period - 1)
        × IsAligned (wilder_smoothing fl values period) (length values) (period - 1)
  unfolding sma ema wilder_smoothing
  averages-IsAligned values period pos = (
    from_seed-IsAligned values period _ pos (λ s.
        let sum = total fl (fl.of_ℕ 0) (take period values) in
        let h =
          slide-all period sum (drop period values) values
            (omega (arith, length-drop period values)) in
        (omega (arith, h.0, length-drop period values), h.1)),
    smooth-IsAligned values period (ema_next fl period) pos,
    smooth-IsAligned values period (wilder_next fl period) pos,
  )

  -- With a period above 0, the relative strength index is returned, is as long as its input, and is
  -- defined exactly from index `period` on.
  pub rsi-IsAligned :
      (closes : List F) (period : ℕ)
      → 0 < period
      → IsAligned (rsi fl closes period) (length closes) period
  unfolding rsi
  rsi-IsAligned closes period pos =
      let cs = changes fl closes in
      let g = seed fl period (map (gain fl) cs) in
      let l = seed fl period (map (loss fl) cs) in
      let tail = rsi_loop fl period g l (drop period cs) in
      elim (Bool-cases (leb (length closes) period)) [
        | inl short ↦ (
          nones (length closes),
          ground arith,
          length-nones F (length closes),
          nones-IsDefinedFrom F (length closes) period (ground arith),
        )
        | inr long ↦
            let enough : period < length closes = ground arith in
            let h = rsi_loop-all period g l (drop period cs) in
            (
              nones period ++ some (rsi_from fl g l) ∷ tail,
              ground arith,
              omega (
                arith,
                length-append (nones period) (some (rsi_from fl g l) ∷ tail),
                length-nones F period,
                h.0,
                length-drop period cs,
                length-changes closes,
              ),
              prefix-IsDefinedFrom period 0 period (some (rsi_from fl g l) ∷ tail) (omega arith)
                  (refl, h.1),
            )
      ]
