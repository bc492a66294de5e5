-- ===== src/Trading/Listing/Pages.antt =====
-- What a client that reads every page sees.
use multi_platform_crypto_tr.Base.{
  ℕ, zero, suc, ◌+◌, ◌-◌, ◌*◌, ◌≤◌, ◌<◌, ◌≡◌, ◌∙◌, refl, ap, sym, String, Option, List, [], ◌∷◌,
  ◌++◌, map, arith, length, All, Bool-cases, inl, inr, eq_iff,
}
use mathlib.Core.List.{Perm}
use native.Mathlib.Nat.{suc-mul, zero-mul, div-add-mod', mod-lt}
use multi_platform_crypto_tr.Analytics.Indicators.{take, drop}
use multi_platform_crypto_tr.Trading.Service.Store.{OrderRecord}
use multi_platform_crypto_tr.Trading.Listing.Newest.{
  IsNewestFirst, newest_first-Perm, newest_first-IsNewestFirst, length-listed,
}
use multi_platform_crypto_tr.Trading.Listing.{
  is_listed, matching, newest_first, list_for_user, count_for_user, list_orders, pages,
}

module _ {A : Type 0} where
  take-drop : (n : ℕ) (xs : List A) → take n xs ++ drop n xs ≡ xs
  unfolding take drop
  take-drop zero xs = refl
  take-drop (suc n) [] = refl
  take-drop (suc n) (x ∷ xs) = ap (λ s. x ∷ s) (take-drop n xs)

  drop_all : (n : ℕ) (xs : List A) → length xs ≤ n → drop n xs ≡ []
  unfolding drop
  drop_all zero [] h = refl
  drop_all zero (x ∷ xs) h = absurd (omega (arith, h))
  drop_all (suc n) [] h = refl
  drop_all (suc n) (x ∷ xs) h = drop_all n xs (omega (arith, h))

  drop-drop : (m n k : ℕ) (xs : List A) → k ≡ m + n → drop n (drop m xs) ≡ drop k xs
  unfolding drop
  drop-drop zero n k xs e = ap (λ i. drop i xs) (omega (arith, e))
  drop-drop (suc m) zero zero [] e = refl
  drop-drop (suc m) zero (suc k) [] e = refl
  drop-drop (suc m) (suc n) zero [] e = refl
  drop-drop (suc m) (suc n) (suc k) [] e = refl
  drop-drop (suc m) n zero (x ∷ xs) e = absurd (omega (arith, e))
  drop-drop (suc m) n (suc k) (x ∷ xs) e = drop-drop m n k xs (omega (arith, e))

  length-take : (n : ℕ) (xs : List A) → length (take n xs) ≤ n
  unfolding take
  length-take zero xs = omega arith
  length-take (suc n) [] = omega arith
  length-take (suc n) (x ∷ xs) = omega (arith, length-take n xs)

pages_suffice : (total size : ℕ) → 0 < size → total ≤ pages total size * size
unfolding pages
pages_suffice total size pos =
    ground (arith, pos, div-add-mod' (total + size - 1) size, mod-lt (total + size - 1) pos)

module _ {D : Type 0} (user_id : String) (symbol status : Option String) (size : ℕ)
    (rows : List (ℕ × OrderRecord D)) where
  -- The orders of the user that match, the newest first.
  abbrev pub listed : List (OrderRecord D)
  listed = map (λ r. r.1) (newest_first (matching user_id symbol status rows))

  -- Some pages in a row, those after the first `before`.
  pub read_pages : ℕ → ℕ → List (OrderRecord D)
  read_pages before zero = []
  read_pages before (suc count) =
      (list_orders user_id symbol status (suc before) size rows).0 ++ read_pages (suc before) count

  read_pages-drop :
      (before count : ℕ)
      → length listed ≤ (before + count) * size
      → read_pages before count ≡ drop (before * size) listed
  unfolding read_pages list_orders list_for_user
  read_pages-drop before zero h = sym (drop_all (before * size) listed (ground (arith, h)))
  read_pages-drop before (suc count) h =
      let all = listed in
      let from = before * size in
      let start : suc before - 1 ≡ before = omega arith in
      let next = suc-mul before size in
      let moved : suc before + count ≡ before + suc count = omega arith in
      rw start (
        ap (λ s. take size (drop from all) ++ s)
          (read_pages-drop (suc before) count (rw moved h)
            ∙ sym (drop-drop from size (suc before * size) all (omega (arith, next))))
        ∙ take-drop size (drop from all))

  matching_owned :
      (rs : List (ℕ × OrderRecord D))
      → All (λ r. r.1.user_id ≡ user_id) (matching user_id symbol status rs)
  unfolding matching
  matching_owned [] = tt
  matching_owned (r ∷ rs) = elim (Bool-cases (is_listed user_id symbol status r.1)) [
    | inl listed_row ↦
        rw listed_row
          ((eq_iff r.1.user_id user_id).0 (ground (arith, listed_row)), matching_owned rs)
    | inr other ↦ rw other (matching_owned rs)
  ]

  -- With a page size above 0, the pages from the first one on, as many as the page count says for the
  -- total that any page reports, give one after the other exactly the orders that match, each once and
  -- the newest first; all are orders of the user, and no page is longer than the page size.
  pub pages_cover :
      (page : ℕ)
      → 0 < size
      → let all = matching user_id symbol status rows in
        let (items, total) = list_orders user_id symbol status page size rows in
        (read_pages 0 (pages total size) ≡ map (λ r. r.1) (newest_first all))
        × Perm (newest_first all) all
        × IsNewestFirst (newest_first all)
        × (total ≡ length all)
        × (length items ≤ size)
        × All (λ r. r.1.user_id ≡ user_id) all
  unfolding list_orders list_for_user count_for_user
  pages_cover page pos =
      let all = matching user_id symbol status rows in
      let enough = pages_suffice (length all) size pos in
      let long = length-listed all in
      (
        read_pages-drop 0 (pages (length all) size) (ground (arith, enough, long))
            ∙ ap (λ n. drop n listed) (zero-mul size)
            ∙ unfold drop in refl,
        newest_first-Perm all,
        newest_first-IsNewestFirst all,
        refl,
        length-take size (drop ((page - 1) * size) listed),
        matching_owned rows,
      )
