-- ===== src/Decimal/Fixed.antt =====
-- An arithmetic that rounds: whole multiples of 1/10000, with products and quotients cut off. It is
-- used to run the model and to show that the laws can be met.
use native.Mathlib.Nat.{div-le_of_le-mul}
use multi_platform_crypto_tr.Base.{
  ℕ, suc, ◌+◌, ◌-◌, ◌*◌, ◌/◌, ◌≤◌, ◌<◌, ◌≡◌, Bool, true, false, arith, leb, if◌then◌else◌,
}
use multi_platform_crypto_tr.Decimal.{Decimal, IsRounding}

-- `negsuc n` is -(n + 1).
pub data ℤ : Type 0 where
  pos : ℕ → ℤ
  negsuc : ℕ → ℤ

abbrev pos_part : ℤ → ℕ
pos_part (pos n) = n
pos_part (negsuc n) = 0

abbrev neg_part : ℤ → ℕ
neg_part (pos n) = 0
neg_part (negsuc n) = suc n

abbrev sub_ℕ : ℕ → ℕ → ℤ
sub_ℕ a b = if leb b a then pos (a - b) else negsuc (b - a - 1)

abbrev neg_ℕ : ℕ → ℤ
neg_ℕ n = sub_ℕ 0 n

abbrev add_ℤ : ℤ → ℤ → ℤ
add_ℤ a b = sub_ℕ (pos_part a + pos_part b) (neg_part a + neg_part b)

abbrev sub_ℤ : ℤ → ℤ → ℤ
sub_ℤ a b = sub_ℕ (pos_part a + neg_part b) (neg_part a + pos_part b)

abbrev scaled_mul : ℤ → ℤ → ℤ
scaled_mul (pos a) (pos b) = pos (a * b / 10000)
scaled_mul (pos a) (negsuc b) = neg_ℕ (a * suc b / 10000)
scaled_mul (negsuc a) (pos b) = neg_ℕ (suc a * b / 10000)
scaled_mul (negsuc a) (negsuc b) = pos (suc a * suc b / 10000)

abbrev scaled_div : ℤ → ℤ → ℤ
scaled_div (pos a) (pos b) = pos (a * 10000 / b)
scaled_div (pos a) (negsuc b) = neg_ℕ (a * 10000 / suc b)
scaled_div (negsuc a) (pos b) = neg_ℕ (suc a * 10000 / b)
scaled_div (negsuc a) (negsuc b) = pos (suc a * 10000 / suc b)

abbrev abs_ℤ : ℤ → ℤ
abs_ℤ (pos n) = pos n
abs_ℤ (negsuc n) = pos (suc n)

abbrev le_ℤ : ℤ → ℤ → Bool
le_ℤ a b = leb (pos_part a + neg_part b) (pos_part b + neg_part a)

abbrev pub fixed : Decimal
fixed = record {
  D = ℤ;
  d0 = pos 0;
  d1 = pos 10000;
  add = add_ℤ;
  sub = sub_ℤ;
  mul = scaled_mul;
  div = scaled_div;
  abs = abs_ℤ;
  le = le_ℤ;
}

le_refl_ℤ : (a : ℤ) → le_ℤ a a ≡ true
le_refl_ℤ a = ground arith

le_trans_ℤ : (a b c : ℤ) → le_ℤ a b ≡ true → le_ℤ b c ≡ true → le_ℤ a c ≡ true
le_trans_ℤ a b c h k = ground arith

le_total_ℤ : (a b : ℤ) → le_ℤ a b ≡ false → le_ℤ b a ≡ true
le_total_ℤ a b h = ground arith

le_antisym_ℤ : (a b : ℤ) → le_ℤ a b ≡ true → le_ℤ b a ≡ true → a ≡ b
le_antisym_ℤ a b h k = ground arith

add_nonneg_ℤ :
    (a b : ℤ) → le_ℤ (pos 0) a ≡ true → le_ℤ (pos 0) b ≡ true → le_ℤ (pos 0) (add_ℤ a b) ≡ true
add_nonneg_ℤ a b h k = ground arith

sub_nonneg_ℤ : (a b : ℤ) → le_ℤ b a ≡ true → le_ℤ (pos 0) (sub_ℤ a b) ≡ true
sub_nonneg_ℤ a b h = ground arith

mul_nonneg_ℤ :
    (a b : ℤ) → le_ℤ (pos 0) a ≡ true → le_ℤ (pos 0) b ≡ true → le_ℤ (pos 0) (scaled_mul a b) ≡ true
mul_nonneg_ℤ a b h k = ground arith

mul_le_ℕ : (a b : ℕ) → b ≤ 10000 → a * b / 10000 ≤ a
mul_le_ℕ a b h = grind arith

mul_le_self_ℤ :
    (a r : ℤ) → le_ℤ (pos 0) a ≡ true → le_ℤ r (pos 10000) ≡ true → le_ℤ (scaled_mul a r) a ≡ true
mul_le_self_ℤ (pos a) (pos r) h k = ground (arith, mul_le_ℕ a r)
mul_le_self_ℤ (pos a) (negsuc r) h k = ground arith
mul_le_self_ℤ (negsuc a) r h k = ground arith

add_comm_ℤ : (a b : ℤ) → add_ℤ a b ≡ add_ℤ b a
add_comm_ℤ a b = ground arith

add_ge_self_ℤ : (a b : ℤ) → le_ℤ (pos 0) b ≡ true → le_ℤ a (add_ℤ a b) ≡ true
add_ge_self_ℤ a b h = ground arith

mul_mono_ℕ : (a b c : ℕ) → a ≤ b → a * c / 10000 ≤ b * c / 10000
mul_mono_ℕ a b c h = grind arith

mul_mono_ℤ :
    (a b c : ℤ)
    → le_ℤ (pos 0) a ≡ true
    → le_ℤ (pos 0) c ≡ true
    → le_ℤ a b ≡ true
    → le_ℤ (scaled_mul a c) (scaled_mul b c) ≡ true
mul_mono_ℤ (pos a) (pos b) (pos c) h k l = ground (arith, mul_mono_ℕ a b c)
mul_mono_ℤ (negsuc a) b c h k l = ground arith
mul_mono_ℤ (pos a) (negsuc b) c h k l = ground arith
mul_mono_ℤ (pos a) (pos b) (negsuc c) h k l = ground arith

div_le_ℕ : (p q e : ℕ) → 0 < e → p < q * e / 10000 → p * 10000 / e ≤ q
div_le_ℕ p q e pos_e h = div-le_of_le-mul e (omega arith)

div_le_ℤ :
    (p q e : ℤ)
    → le_ℤ (pos 0) p ≡ true
    → le_ℤ e (pos 0) ≡ false
    → le_ℤ (scaled_mul q e) p ≡ false
    → le_ℤ (scaled_div p e) q ≡ true
div_le_ℤ (pos p) (pos q) (pos e) h k l = ground (arith, div_le_ℕ p q e)
div_le_ℤ (pos p) (negsuc q) (pos e) h k l = ground arith
div_le_ℤ (negsuc p) q e h k l = ground arith
div_le_ℤ (pos p) q (negsuc e) h k l = ground arith

mul_zero_ℤ : (a : ℤ) → scaled_mul a (pos 0) ≡ pos 0
mul_zero_ℤ (pos a) = ground arith
mul_zero_ℤ (negsuc a) = ground arith

zero_mul_ℤ : (a : ℤ) → scaled_mul (pos 0) a ≡ pos 0
zero_mul_ℤ (pos a) = ground arith
zero_mul_ℤ (negsuc a) = ground arith

add_zero_ℤ : (a : ℤ) → add_ℤ a (pos 0) ≡ a
add_zero_ℤ a = ground arith

sub_zero_ℤ : (a : ℤ) → sub_ℤ a (pos 0) ≡ a
sub_zero_ℤ a = ground arith

pub fixed-IsRounding : IsRounding fixed
fixed-IsRounding = record {
  le_refl = le_refl_ℤ;
  le_trans = le_trans_ℤ;
  le_total = le_total_ℤ;
  le_antisym = le_antisym_ℤ;
  add_nonneg = add_nonneg_ℤ;
  sub_nonneg = sub_nonneg_ℤ;
  mul_nonneg = mul_nonneg_ℤ;
  mul_le_self = mul_le_self_ℤ;
  add_comm = add_comm_ℤ;
  add_ge_self = add_ge_self_ℤ;
  mul_mono = mul_mono_ℤ;
  div_le_of_lt_mul = div_le_ℤ;
  mul_zero = mul_zero_ℤ;
  zero_mul = zero_mul_ℤ;
  add_zero = add_zero_ℤ;
  sub_zero = sub_zero_ℤ;
}
