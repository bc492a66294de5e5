-- ===== src/Exchange/Ccxt/Funds.antt =====
-- Which balances the ccxt adapter returns.
use multi_platform_crypto_tr.Base.{
  ◌≡◌, ◌⊎◌, ◌↔◌, ◌∙◌, refl, ap, sym, inl, inr, String, true, false, List, [], ◌∷◌, ◌++◌, arith,
  eq_iff, Bool-cases,
}
use multi_platform_crypto_tr.Base.Result.{Result, ok, Result-cases}
use multi_platform_crypto_tr.Decimal.{Decimal, lt}
use multi_platform_crypto_tr.Exceptions.{AppError}
use multi_platform_crypto_tr.Exchange.Models.{Balance}
use multi_platform_crypto_tr.Exchange.Ccxt.Response.{dict, Fields, end, field, Conversions, get}
use multi_platform_crypto_tr.Exchange.Ccxt.Positions.{
  has_key, keys_after, assets_of, total_of, balance_in, positive_balances, balances_of,
}

-- `x` stands in the list.
abbrev pub Occurs : {A : Type 0} → A → List A → Type 0
Occurs x [] = ⊥
Occurs x (y ∷ ys) = (y ≡ x) ⊎ Occurs x ys

module _ {A : Type 0} where
  Occurs-append : (x : A) (xs ys : List A) → Occurs x (xs ++ ys) ↔ (Occurs x xs ⊎ Occurs x ys)
  Occurs-append x [] ys = (λ o. inr o, λ o. ground (arith, o))
  Occurs-append x (z ∷ xs) ys =
      let (from, to) = Occurs-append x xs ys in
      (λ o. ground (arith, o, from), λ o. ground (arith, o, to))

module _ {N : Type 0} where
  keys_after-Occurs :
      (a : String) (seen d : Fields N)
      → Occurs a (keys_after seen d) ↔ ((has_key a d ≡ true) × (has_key a seen ≡ false))
  unfolding has_key
  keys_after-Occurs a seen end = (λ o. ground (arith, o), λ (h, other). ground (arith, h))
  keys_after-Occurs a seen (field k v d) =
      let (from, to) = keys_after-Occurs a seen d in
      let same : k ≡ a → has_key k seen ≡ has_key a seen = ap (λ x. has_key x seen) in
      elim (Bool-cases (has_key k seen)) [
        | inl known ↦ (
          λ o. ground (arith, known, o, from, eq_iff k a),
          λ (h, other). ground (arith, known, h, other, to, same, eq_iff k a),
        )
        | inr fresh ↦ (
          λ o. ground (arith, fresh, o, from, same, eq_iff k a),
          λ (h, other). ground (arith, fresh, h, other, to, eq_iff k a),
        )
      ]

  assets_of-Occurs :
      (a : String) (free used : Fields N)
      → Occurs a (assets_of free used) ↔ ((has_key a free ≡ true) ⊎ (has_key a used ≡ true))
  unfolding assets_of
  assets_of-Occurs a free used =
      let (split, join) = Occurs-append a (keys_after end free) (keys_after free used) in
      let (first, first') = keys_after-Occurs a end free in
      let (second, second') = keys_after-Occurs a free used in
      let nothing : Fields N = end in
      let none_yet : has_key a nothing ≡ false = unfold has_key in refl in
      (
        λ o. elim (split o) [ inl x ↦ inl (first x).0 | inr y ↦ inr (second y).0 ],
        λ h. elim (Bool-cases (has_key a free)) [
          | inl x ↦ join (inl (first' (x, none_yet)))
          | inr x ↦ join (inr (second' (ground (arith, h, x), x)))
        ],
      )

abbrev OrError : Type 0 → Type 0
OrError A = Result AppError A

ok_injective : {A : Type 0} → (a b : A) → ◌≡◌ {A = OrError A} (ok a) (ok b) → a ≡ b
ok_injective a b e = ground (arith, e)

module _ {N : Type 0} (dec : Decimal) (cv : Conversions N dec.D) (free used : Fields N) where
  open dec use {D, d0}

  abbrev Holds : Balance D → Type 0
  Holds b = (balance_in dec cv free used b.asset ≡ ok b) × (lt dec d0 (total_of dec cv b) ≡ true)

  balance_in-asset :
      (asset : String) (b : Balance D) → balance_in dec cv free used asset ≡ ok b → b.asset ≡ asset
  balance_in-asset asset b e = ground (arith, e)

  positive_balances-Occurs :
      (assets : List String) (bs : List (Balance D)) (b : Balance D)
      → positive_balances dec cv free used assets ≡ ok bs
      → Occurs b bs ↔ (Occurs b.asset assets × Holds b)
  unfolding positive_balances
  positive_balances-Occurs [] bs b e = (λ o. ground (arith, e, o), λ (o, h). absurd o)
  positive_balances-Occurs (asset ∷ assets) bs b e =
      elim (Result-cases (balance_in dec cv free used asset)) [
        | inr (x, failed) ↦ ground (arith, e, failed)
        | inl (c, found) ↦ elim (Result-cases (positive_balances dec cv free used assets)) [
          | inr (x, failed) ↦ ground (arith, e, found, failed)
          | inl (cs, others) ↦
              let (from, to) = positive_balances-Occurs assets cs b others in
              let named = balance_in-asset asset c found in
              let same_one : asset ≡ b.asset → balance_in dec cv free used b.asset ≡ ok b → c ≡ b =
                λ same held.
                  ok_injective c b (sym found ∙ ap (balance_in dec cv free used) same ∙ held) in
              elim (Bool-cases (lt dec d0 (total_of dec cv c))) [
                | inl positive ↦
                    let shape : bs ≡ c ∷ cs = ground (arith, e, found, others, positive) in
                    rw shape (
                      λ o. elim o [
                        | inl here ↦
                            let key = sym named ∙ ap (λ x. x.asset) here in
                            (
                              inl key,
                              (
                                sym (ap (balance_in dec cv free used) key) ∙ found ∙ ap ok here,
                                sym (ap (λ x. lt dec d0 (total_of dec cv x)) here) ∙ positive,
                              ),
                            )
                        | inr later ↦ (inr (from later).0, (from later).1)
                      ],
                      λ (o, (held, is_positive)). elim o [
                        | inl same ↦ inl (same_one same held)
                        | inr later ↦ inr (to (later, (held, is_positive)))
                      ],
                    )
                | inr empty ↦
                    let shape : bs ≡ cs = ground (arith, e, found, others, empty) in
                    rw shape (
                      λ o. (inr (from o).0, (from o).1),
                      λ (o, (held, is_positive)). elim o [
                        | inl same ↦
                            let nothing =
                              ap (λ x. lt dec d0 (total_of dec cv x)) (same_one same held) in
                            ground (arith, nothing, empty, is_positive)
                        | inr later ↦ to (later, (held, is_positive))
                      ],
                    )
              ]
        ]
      ]

  -- Of an answer with the free and the used amounts, exactly those balances are returned whose asset
  -- stands in one of the two, whose amounts are the ones that it holds there or 0, and whose total is
  -- above 0.
  pub balances_exact :
      (raw : Fields N) (bs : List (Balance D)) (b : Balance D)
      → get "free" (dict end) raw ≡ dict free
      → get "used" (dict end) raw ≡ dict used
      → balances_of dec cv raw ≡ ok bs
      → Occurs b bs ↔ (
          ((has_key b.asset free ≡ true) ⊎ (has_key b.asset used ≡ true))
          × (balance_in dec cv free used b.asset ≡ ok b)
          × (lt dec d0 (total_of dec cv b) ≡ true))
  unfolding balances_of
  balances_exact raw bs b frees useds e =
      let (listed, unlisted) = assets_of-Occurs b.asset free used in
      let (from, to) =
        positive_balances-Occurs (assets_of free used) bs b (ground (arith, e, frees, useds)) in
      (
        λ o. (listed (from o).0, (from o).1.0, (from o).1.1),
        λ (h, held, positive). to (unlisted h, (held, positive)),
      )
