-- ===== src/Wire/ZigZag.antt =====
-- Zig-zag encoding: plain arithmetic, and its inverse.
use lwpb.Common.{
  ℕ, ◌-◌, ◌*◌, ◌/◌, ◌%◌, ◌^◌, ◌<◌, ◌≡◌, ◌≤◌, arith, lt_or_ge, inl, inr, ltb-true, ltb-false,
  ==_true, ==_false,
}
use lwpb.Common.Bits.{bit_xor_ones, bit_xor-zero}
use lwpb.Wire.{zig_zag32, zig_zag64, un_zig_zag, sign_extend}

-- Even numbers for what is not negative, odd ones for what is.
pub zig_zag32_nonneg : (x : ℕ) → x < 2 ^ 31 → zig_zag32 x ≡ 2 * x
unfolding zig_zag32
zig_zag32_nonneg x h = rw (ltb-true x (2 ^ 31) h, bit_xor-zero (x * 2 % 2 ^ 32)) (omega arith)

pub zig_zag32_neg : (x : ℕ) → 2 ^ 31 ≤ x → x < 2 ^ 32 → zig_zag32 x ≡ 2 * (2 ^ 32 - x) - 1
unfolding zig_zag32
zig_zag32_neg x h k =
    rw (ltb-false x (2 ^ 31) h, bit_xor_ones 32 (x * 2 % 2 ^ 32) (omega arith)) (omega arith)

pub zig_zag64_nonneg : (x : ℕ) → x < 2 ^ 63 → zig_zag64 x ≡ 2 * x
unfolding zig_zag64
zig_zag64_nonneg x h = rw (ltb-true x (2 ^ 63) h, bit_xor-zero (x * 2 % 2 ^ 64)) (omega arith)

pub zig_zag64_neg : (x : ℕ) → 2 ^ 63 ≤ x → x < 2 ^ 64 → zig_zag64 x ≡ 2 * (2 ^ 64 - x) - 1
unfolding zig_zag64
zig_zag64_neg x h k =
    rw (ltb-false x (2 ^ 63) h, bit_xor_ones 64 (x * 2 % 2 ^ 64) (omega arith)) (omega arith)

pub un_zig_zag_even : (v : ℕ) → v % 2 ≡ 0 → un_zig_zag v ≡ v / 2
unfolding un_zig_zag
un_zig_zag_even v h = rw (==_true (v % 2) 0 h) (bit_xor-zero (v / 2))

pub un_zig_zag_odd : (v : ℕ) → v % 2 ≡ 1 → v < 2 ^ 64 → un_zig_zag v ≡ 2 ^ 64 - 1 - v / 2
unfolding un_zig_zag
un_zig_zag_odd v h k = rw (==_false (v % 2) 0 (omega arith)) (bit_xor_ones 64 (v / 2) (omega arith))

-- For every 32-bit pattern, the decoder's zig-zag formula, computed in 64 bits and cut to 32, undoes
-- the encoder's.
pub un_zig_zag-zig_zag32 : (x : ℕ) → x < 2 ^ 32 → un_zig_zag (zig_zag32 x) % 2 ^ 32 ≡ x
un_zig_zag-zig_zag32 x h = elim (lt_or_ge x (2 ^ 31)) [
  | inl p ↦
      let z = zig_zag32_nonneg x p in rw (z, un_zig_zag_even (2 * x) (omega arith)) (omega arith)
  | inr p ↦
      let z = zig_zag32_neg x p h in
      rw (z, un_zig_zag_odd (2 * (2 ^ 32 - x) - 1) (omega arith) (omega arith)) (omega arith)
]

-- For every 64-bit pattern, the decoder's zig-zag formula undoes the encoder's.
pub un_zig_zag-zig_zag64 : (x : ℕ) → x < 2 ^ 64 → un_zig_zag (zig_zag64 x) ≡ x
un_zig_zag-zig_zag64 x h = elim (lt_or_ge x (2 ^ 63)) [
  | inl p ↦
      let z = zig_zag64_nonneg x p in rw (z, un_zig_zag_even (2 * x) (omega arith)) (omega arith)
  | inr p ↦
      let z = zig_zag64_neg x p h in
      rw (z, un_zig_zag_odd (2 * (2 ^ 64 - x) - 1) (omega arith) (omega arith)) (omega arith)
]

pub zig_zag32-lt : (x : ℕ) → x < 2 ^ 32 → zig_zag32 x < 2 ^ 32
zig_zag32-lt x h = elim (lt_or_ge x (2 ^ 31)) [
  | inl p ↦ omega (arith, zig_zag32_nonneg x p)
  | inr p ↦ omega (arith, zig_zag32_neg x p h)
]

pub zig_zag64-lt : (x : ℕ) → x < 2 ^ 64 → zig_zag64 x < 2 ^ 64
zig_zag64-lt x h = elim (lt_or_ge x (2 ^ 63)) [
  | inl p ↦ omega (arith, zig_zag64_nonneg x p)
  | inr p ↦ omega (arith, zig_zag64_neg x p h)
]

pub sign_extend_lem : (x : ℕ) → x < 2 ^ 32 → (sign_extend x < 2 ^ 64) × (sign_extend x % 2 ^ 32 ≡ x)
unfolding sign_extend
sign_extend_lem x h = ground arith
