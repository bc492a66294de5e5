-- ===== src/Trading/Listing/Newest.antt =====
-- The rows of the listing are sorted, and none is lost or doubled.
use mathlib.Core.List.{Perm}
use mathlib.Core.List.Perm
use multi_platform_crypto_tr.Base.{
  ℕ, suc, ◌≤◌, ◌≡◌, ◌∙◌, refl, ap, inl, inr, List, [], ◌∷◌, map, arith, length, All, Bool-cases,
  ltb,
}
use multi_platform_crypto_tr.Trading.Service.Store.{OrderRecord}
use multi_platform_crypto_tr.Trading.Listing.{place, newest_first}

module _ {D : Type 0} where
  -- Each row is at least as new as those after it.
  abbrev pub IsNewestFirst : List (ℕ × OrderRecord D) → Type 0
  IsNewestFirst [] = Unit
  IsNewestFirst (r ∷ rows) = All (λ s. s.0 ≤ r.0) rows × IsNewestFirst rows

  place-All :
      (P : ℕ × OrderRecord D → Type 0) (r : ℕ × OrderRecord D) (rows : List (ℕ × OrderRecord D))
      → P r
      → All P rows
      → All P (place r rows)
  unfolding place
  place-All P r [] p h = (p, tt)
  place-All P r (s ∷ rows) p h = elim (Bool-cases (ltb r.0 s.0)) [
    | inl older ↦ rw older (h.0, place-All P r rows p h.1)
    | inr newer ↦ rw newer (p, h)
  ]

  All-older :
      (m n : ℕ) (rows : List (ℕ × OrderRecord D))
      → m ≤ n
      → All (λ s. s.0 ≤ m) rows
      → All (λ s. s.0 ≤ n) rows
  All-older m n [] le h = tt
  All-older m n (s ∷ rows) le h = (omega (arith, le, h.0), All-older m n rows le h.1)

  place-IsNewestFirst :
      (r : ℕ × OrderRecord D) (rows : List (ℕ × OrderRecord D))
      → IsNewestFirst rows
      → IsNewestFirst (place r rows)
  unfolding place
  place-IsNewestFirst r [] h = (tt, tt)
  place-IsNewestFirst r (s ∷ rows) h = elim (Bool-cases (ltb r.0 s.0)) [
    | inl older ↦ rw older (
      place-All (λ x. x.0 ≤ s.0) r rows (ground (arith, older)) h.0,
      place-IsNewestFirst r rows h.1,
    )
    | inr newer ↦
        let le : s.0 ≤ r.0 = ground (arith, newer) in
        rw newer ((le, All-older s.0 r.0 rows le h.0), h)
  ]

  pub newest_first-IsNewestFirst :
      (rows : List (ℕ × OrderRecord D)) → IsNewestFirst (newest_first rows)
  unfolding newest_first
  newest_first-IsNewestFirst [] = tt
  newest_first-IsNewestFirst (r ∷ rows) =
      place-IsNewestFirst r (newest_first rows) (newest_first-IsNewestFirst rows)

  place-Perm :
      (r : ℕ × OrderRecord D) (rows : List (ℕ × OrderRecord D)) → Perm (place r rows) (r ∷ rows)
  unfolding place
  place-Perm r [] = Perm.refl (r ∷ [])
  place-Perm r (s ∷ rows) = elim (Bool-cases (ltb r.0 s.0)) [
    | inl older ↦ rw older (Perm.trans (Perm.cons s (place-Perm r rows)) (Perm.swap r s rows))
    | inr newer ↦ rw newer (Perm.refl (r ∷ s ∷ rows))
  ]

  pub newest_first-Perm : (rows : List (ℕ × OrderRecord D)) → Perm (newest_first rows) rows
  unfolding newest_first
  newest_first-Perm [] = Perm.refl []
  newest_first-Perm (r ∷ rows) =
      Perm.trans (place-Perm r (newest_first rows)) (Perm.cons r (newest_first-Perm rows))

  length-place :
      (r : ℕ × OrderRecord D) (rows : List (ℕ × OrderRecord D))
      → length (place r rows) ≡ suc (length rows)
  unfolding place
  length-place r [] = refl
  length-place r (s ∷ rows) = ground (arith, length-place r rows)

  length-newest_first : (rows : List (ℕ × OrderRecord D)) → length (newest_first rows) ≡ length rows
  unfolding newest_first
  length-newest_first [] = refl
  length-newest_first (r ∷ rows) =
      length-place r (newest_first rows) ∙ ap suc (length-newest_first rows)

  length-records : (rows : List (ℕ × OrderRecord D)) → length (map (λ r. r.1) rows) ≡ length rows
  length-records [] = refl
  length-records (r ∷ rows) = ap suc (length-records rows)

  pub length-listed :
      (rows : List (ℕ × OrderRecord D)) → length (map (λ r. r.1) (newest_first rows)) ≡ length rows
  length-listed rows = length-records (newest_first rows) ∙ length-newest_first rows
