-- ===== src/Decimal.antt =====
-- Python's `decimal.Decimal` as the program uses it. A value stands for the number that it denotes,
-- with at most the context's 28 digits, so `==` is `≡`; infinities and NaN are left out. An operation
-- returns its exact result correctly rounded, so the laws below hold with rounding, and the only
-- cancellation law asks that the first operation was exact.
pub mod Fixed
use multi_platform_crypto_tr.Base.{◌≡◌, ◌⊎◌, Bool, true, false, not, if◌then◌else◌}

pub record Decimal : Type 1 where
  pub D : Type 0
  pub d0 : D
  pub d1 : D
  pub add : D → D → D
  pub sub : D → D → D
  pub mul : D → D → D
  pub div : D → D → D
  pub abs : D → D
  pub le : D → D → Bool  -- `a <= b`

module _ (dec : Decimal) where
  open dec use {D, le}

  abbrev pub lt : D → D → Bool
  lt a b = not (le b a)

  -- Python's `min` and `max` of two values: the first, unless the second is strictly better
  abbrev pub dmin : D → D → D
  dmin a b = if lt b a then b else a

  abbrev pub dmax : D → D → D
  dmax a b = if lt a b then b else a

  abbrev pub deq : D → D → Bool
  deq a b = if le a b then le b a else false

-- What a correctly rounding arithmetic guarantees.
pub record IsRounding (dec : Decimal) : Type 0 where
  pub le_refl : (a : dec.D) → dec.le a a ≡ true
  pub le_trans : (a b c : dec.D) → dec.le a b ≡ true → dec.le b c ≡ true → dec.le a c ≡ true
  pub le_total : (a b : dec.D) → dec.le a b ≡ false → dec.le b a ≡ true
  pub le_antisym : (a b : dec.D) → dec.le a b ≡ true → dec.le b a ≡ true → a ≡ b
  -- rounding keeps signs
  pub add_nonneg :
      (a b : dec.D)
      → dec.le dec.d0 a ≡ true
      → dec.le dec.d0 b ≡ true
      → dec.le dec.d0 (dec.add a b) ≡ true
  pub sub_nonneg : (a b : dec.D) → dec.le b a ≡ true → dec.le dec.d0 (dec.sub a b) ≡ true
  pub mul_nonneg :
      (a b : dec.D)
      → dec.le dec.d0 a ≡ true
      → dec.le dec.d0 b ≡ true
      → dec.le dec.d0 (dec.mul a b) ≡ true
  -- rounding is monotone, and leaves a value that needs none alone
  pub mul_le_self :
      (a r : dec.D)
      → dec.le dec.d0 a ≡ true
      → dec.le r dec.d1 ≡ true
      → dec.le (dec.mul a r) a ≡ true
  pub add_comm : (a b : dec.D) → dec.add a b ≡ dec.add b a
  pub add_ge_self : (a b : dec.D) → dec.le dec.d0 b ≡ true → dec.le a (dec.add a b) ≡ true
  pub mul_mono :
      (a b c : dec.D)
      → dec.le dec.d0 a ≡ true
      → dec.le dec.d0 c ≡ true
      → dec.le a b ≡ true
      → dec.le (dec.mul a c) (dec.mul b c) ≡ true
  pub div_le_of_lt_mul :
      (p q e : dec.D)
      → dec.le dec.d0 p ≡ true
      → dec.le e dec.d0 ≡ false
      → dec.le (dec.mul q e) p ≡ false
      → dec.le (dec.div p e) q ≡ true
  pub mul_zero : (a : dec.D) → dec.mul a dec.d0 ≡ dec.d0
  pub zero_mul : (a : dec.D) → dec.mul dec.d0 a ≡ dec.d0
  pub add_zero : (a : dec.D) → dec.add a dec.d0 ≡ a
  pub sub_zero : (a : dec.D) → dec.sub a dec.d0 ≡ a
