-- ===== src/Exchange/Paper/Solvent.antt =====
-- No balance of a paper account goes below zero, and a refused order changes nothing.
use multi_platform_crypto_tr.Base.{
  String, ◌≡◌, true, some, inl, inr, arith, Option-cases, Bool-cases,
}
use multi_platform_crypto_tr.Base.Dict.{Dict, lookup, insert, lookup-insert}
use multi_platform_crypto_tr.Base.Result.{Yields, Yields-map_ok}
use multi_platform_crypto_tr.Decimal.{Decimal, IsRounding, dmin}
use multi_platform_crypto_tr.Exchange.Models.{Balance}
use multi_platform_crypto_tr.Exchange.Paper.Funds.{balance_of, credit, debit, reserve, release}
use multi_platform_crypto_tr.Exchange.Paper.{settle}
use multi_platform_crypto_tr.Trading.{OrderSide, buy, sell}

module _ (dec : Decimal) where
  open dec use {D, d0, d1, add, sub, mul, le}

  abbrev pub IsFunded : Balance D → Type 0
  IsFunded b = (le d0 b.free ≡ true) × (le d0 b.used ≡ true)

  -- No asset has a negative free or reserved balance.
  pub record IsSolvent (balances : Dict (Balance D)) : Type 0 where
    pub at : (asset : String) (b : Balance D) → lookup asset balances ≡ some b → IsFunded b

module _ (dec : Decimal) (laws : IsRounding dec) where
  open dec use {D, d0, d1, add, sub, mul, le}

  insert-IsSolvent :
      (asset : String) (b : Balance D) (balances : Dict (Balance D))
      → IsSolvent dec balances
      → IsFunded dec b
      → IsSolvent dec (insert asset b balances)
  insert-IsSolvent asset b balances s f = record {
    at = λ k c e. ground (arith, lookup-insert asset k b balances, s.at k c);
  }

  pub balance_of-IsFunded :
      (asset : String) (balances : Dict (Balance D))
      → IsSolvent dec balances
      → IsFunded dec (balance_of dec asset balances)
  unfolding balance_of
  balance_of-IsFunded asset balances s = elim (Option-cases (lookup asset balances)) [
    | inl e ↦ rw (e, balance_of) (laws.le_refl d0, laws.le_refl d0)
    | inr (b, e) ↦ rw (e, balance_of) (s.at asset b e)
  ]

  credit-IsSolvent :
      (asset : String) (amount : D) (balances : Dict (Balance D))
      → IsSolvent dec balances
      → le d0 amount ≡ true
      → IsSolvent dec (credit dec asset amount balances)
  unfolding credit
  credit-IsSolvent asset amount balances s h =
      let b = balance_of dec asset balances in
      let f = balance_of-IsFunded asset balances s in
      insert-IsSolvent asset (record { asset = asset; free = add b.free amount; used = b.used })
        balances s (laws.add_nonneg b.free amount f.0 h, f.1)

  debit-IsSolvent :
      (asset : String) (amount : D) (balances : Dict (Balance D))
      → IsSolvent dec balances
      → Yields (IsSolvent dec) (debit dec asset amount balances)
  unfolding debit
  debit-IsSolvent asset amount balances s =
      let b = balance_of dec asset balances in
      elim (Bool-cases (le amount b.free)) [
        | inl covered ↦ rw (covered) (
            insert-IsSolvent asset
              (record { asset = asset; free = sub b.free amount; used = b.used }) balances s
              (laws.sub_nonneg b.free amount covered, (balance_of-IsFunded asset balances s).1))
        | inr short ↦ rw short tt
      ]

  pub reserve-IsSolvent :
      (asset : String) (amount : D) (balances : Dict (Balance D))
      → IsSolvent dec balances
      → le d0 amount ≡ true
      → Yields (IsSolvent dec) (reserve dec asset amount balances)
  unfolding reserve
  reserve-IsSolvent asset amount balances s h =
      let b = balance_of dec asset balances in
      elim (Bool-cases (le amount b.free)) [
        | inl covered ↦ rw (covered) (
            insert-IsSolvent asset
              (record { asset = asset; free = sub b.free amount; used = add b.used amount })
              balances s
              (
                laws.sub_nonneg b.free amount covered,
                laws.add_nonneg b.used amount (balance_of-IsFunded asset balances s).1 h,
              ))
        | inr short ↦ rw short tt
      ]

  dmin_bounds :
      (a b : D)
      → (le (dmin dec a b) b ≡ true)
        × (le d0 a ≡ true → le d0 b ≡ true → le d0 (dmin dec a b) ≡ true)
  dmin_bounds a b = ground (arith, laws.le_refl b, laws.le_total a b)

  pub release-IsSolvent :
      (asset : String) (amount : D) (balances : Dict (Balance D))
      → IsSolvent dec balances
      → le d0 amount ≡ true
      → IsSolvent dec (release dec asset amount balances)
  unfolding release
  release-IsSolvent asset amount balances s h =
      let b = balance_of dec asset balances in
      let f = balance_of-IsFunded asset balances s in
      let released = dmin dec amount b.used in
      let bounds = dmin_bounds amount b.used in
      insert-IsSolvent asset
        (record { asset = asset; free = add b.free released; used = sub b.used released }) balances
        s
        (
          laws.add_nonneg b.free released f.0 (bounds.1 h f.1),
          laws.sub_nonneg b.used released bounds.0,
        )

  pub settle-IsSolvent :
      (side : OrderSide) (pair : String × String) (amount cost fee : D)
      (balances : Dict (Balance D))
      → IsSolvent dec balances
      → le d0 amount ≡ true
      → le fee cost ≡ true
      → Yields (IsSolvent dec) (settle dec side pair amount cost fee balances)
  unfolding settle
  settle-IsSolvent buy (base, quote) amount cost fee balances s h k =
      Yields-map_ok (IsSolvent dec) (IsSolvent dec) (credit dec base amount)
        (debit dec quote (add cost fee) balances) (λ paid t. credit-IsSolvent base amount paid t h)
        (debit-IsSolvent quote (add cost fee) balances s)
  settle-IsSolvent sell (base, quote) amount cost fee balances s h k =
      Yields-map_ok (IsSolvent dec) (IsSolvent dec) (credit dec quote (sub cost fee))
        (debit dec base amount balances)
        (λ paid t. credit-IsSolvent quote (sub cost fee) paid t (laws.sub_nonneg cost fee k))
        (debit-IsSolvent base amount balances s)
