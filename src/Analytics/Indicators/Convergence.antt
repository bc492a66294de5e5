-- ===== src/Analytics/Indicators/Convergence.antt =====
-- Where MACD is defined.
use multi_platform_crypto_tr.Base.{
  ℕ, zero, suc, ◌+◌, ◌-◌, ◌≤◌, ◌<◌, ◌≡◌, refl, inl, true, ◌&&◌, Option, none, some, List, [], ◌∷◌,
  ◌++◌, arith, length, ltb, ◌⊎◌,
}
use multi_platform_crypto_tr.Base.Result.{ok}
use multi_platform_crypto_tr.Analytics.Float.{Float}
use multi_platform_crypto_tr.Analytics.Indicators.{
  nones, drop, defined, differences, Macd, placed, macd,
}
use multi_platform_crypto_tr.Analytics.Indicators.Aligned.{
  IsDefinedFrom, averages-IsAligned, length-drop,
}
use multi_platform_crypto_tr.Analytics.Bands.Aligned.{at_end-IsDefinedFrom}

module _ (fl : Float) where
  open fl use {F}

  -- a difference is defined where both series are, hence from the later of the two starts on
  differences_later :
      (j k : ℕ) (f s : List (Option F))
      → j ≤ k
      → length f ≡ length s
      → IsDefinedFrom j f
      → IsDefinedFrom k s
      → (length (differences fl f s) ≡ length s) × IsDefinedFrom k (differences fl f s)
  unfolding differences
  differences_later j k [] [] le e h i = (refl, tt)
  differences_later j k [] (y ∷ s) le e h i = absurd (omega (arith, e))
  differences_later j k (x ∷ f) [] le e h i = absurd (omega (arith, e))
  differences_later zero zero (x ∷ f) (y ∷ s) le e h i =
      ground (arith, differences_later zero zero f s (omega arith) (omega (arith, e)) h.1 i.1)
  differences_later zero (suc k) (x ∷ f) (y ∷ s) le e h i =
      ground (arith, differences_later zero k f s (omega arith) (omega (arith, e)) h.1 i.1)
  differences_later (suc j) (suc k) (x ∷ f) (y ∷ s) le e h i =
      ground (arith, differences_later j k f s (omega (arith, le)) (omega (arith, e)) h.1 i.1)
  differences_later (suc j) zero (x ∷ f) (y ∷ s) le e h i = absurd (omega (arith, le))

  length-defined_from :
      (k : ℕ) (s : List (Option F)) → IsDefinedFrom k s → length (defined s) ≡ length s - k
  unfolding defined
  length-defined_from k [] h = omega arith
  length-defined_from zero (none ∷ s) h = ground (arith, h.0)
  length-defined_from zero (some v ∷ s) h = ground (arith, length-defined_from zero s h.1)
  length-defined_from (suc k) (none ∷ s) h = ground (arith, length-defined_from k s h.1)
  length-defined_from (suc k) (some v ∷ s) h = ground (arith, h.0)

  drop_later-IsDefinedFrom :
      (j k : ℕ) (s : List (Option F))
      → IsDefinedFrom k s
      → (k ≤ j) ⊎ (length s ≤ j)
      → IsDefinedFrom 0 (drop j s)
  unfolding drop
  drop_later-IsDefinedFrom zero zero s h c = h
  drop_later-IsDefinedFrom zero (suc k) [] h c = tt
  drop_later-IsDefinedFrom zero (suc k) (x ∷ s) h c = absurd (ground (arith, c))
  drop_later-IsDefinedFrom (suc j) k [] h c = tt
  drop_later-IsDefinedFrom (suc j) zero (x ∷ s) h c =
      drop_later-IsDefinedFrom j zero s h.1 (inl (omega arith))
  drop_later-IsDefinedFrom (suc j) (suc k) (x ∷ s) h c =
      drop_later-IsDefinedFrom j k s h.1 (ground (arith, c))

  -- `nones offset` in front of a series of as many values as there are left
  offset_end :
      (n k j offset : ℕ) (values : List (Option F))
      → length values ≡ n - k
      → offset ≡ n - length values
      → IsDefinedFrom j values
      → (length (nones offset ++ values) ≡ n) × IsDefinedFrom (k + j) (nones offset ++ values)
  offset_end n k j offset values e f h = rw f (at_end-IsDefinedFrom n k j (k + j) values e refl h)

  -- For periods that are accepted, the three series are returned; each is as long as its input. The
  -- line is defined exactly from index `slow - 1` on, the signal line and the histogram from
  -- `signal - 1` places later on.
  pub macd-IsAligned :
      (closes : List F) (fast slow signal : ℕ)
      → fast < slow
      → 0 < fast
      → 0 < signal
      → (m : Macd fl) × (macd fl closes fast slow signal ≡ ok m)
        × (length m.line ≡ length closes)
        × (length m.signal ≡ length closes)
        × (length m.hist ≡ length closes)
        × IsDefinedFrom (slow - 1) m.line
        × IsDefinedFrom (slow - 1 + (signal - 1)) m.signal
        × IsDefinedFrom (slow - 1 + (signal - 1)) m.hist
  unfolding macd
  macd-IsAligned closes fast slow signal faster fast_pos signal_pos =
      let n = length closes in
      let (f, f_made, f_long, f_from) = (averages-IsAligned fl closes fast fast_pos).1 in
      let (s, s_made, s_long, s_from) =
        (averages-IsAligned fl closes slow (omega (arith, faster))).1 in
      let line = differences fl f s in
      let (l_long, l_from) =
        differences_later (fast - 1) (slow - 1) f s (omega (arith, faster))
          (omega (arith, f_long, s_long)) f_from s_from in
      let many = length-defined_from (slow - 1) line l_from in
      let (sd, d_made, d_long, d_from) =
        (averages-IsAligned fl (defined line) signal signal_pos).1 in
      let offset = length line - length (defined line) in
      let rest = drop offset line in
      let rest_from =
        drop_later-IsDefinedFrom offset (slow - 1) line l_from (ground (arith, many)) in
      let (h_long, h_from) =
        differences_later 0 (signal - 1) rest sd (omega arith)
          (omega (arith, length-drop offset line, many, d_long)) rest_from d_from in
      let on_signal =
        offset_end n (slow - 1) (signal - 1) offset sd (omega (arith, d_long, many, l_long, s_long))
          (omega (arith, d_long, l_long, s_long)) d_from in
      let on_hist =
        offset_end n (slow - 1) (signal - 1) offset (differences fl rest sd)
          (omega (arith, h_long, d_long, many, l_long, s_long))
          (omega (arith, h_long, d_long, l_long, s_long)) h_from in
      let accepted : (ltb fast slow && ltb 0 fast && ltb 0 signal) ≡ true =
        ground (arith, faster, fast_pos, signal_pos) in
      (
        placed fl line sd,
        rw (accepted, f_made, s_made, d_made) refl,
        omega (arith, l_long, s_long),
        on_signal.0,
        on_hist.0,
        l_from,
        on_signal.1,
        on_hist.1,
      )
