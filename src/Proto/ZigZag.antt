-- ===== src/Proto/ZigZag.antt =====
-- toZigZag8 to toZigZag64 (libcluon/src/ToProtoVisitor.cpp) and fromZigZag8 to fromZigZag64
-- (libcluon/src/FromProtoVisitor.cpp), for every width `w`, on two's complement patterns. The
-- arithmetic that the code does at a wider type and casts back is written at width `w`.
use libcluon.Prelude.{ℕ, suc, ◌+◌, ◌-◌, ◌*◌, ◌/◌, ◌%◌, ◌^◌, ◌≤◌, ◌<◌, ◌≡◌, ap, ◌∙◌, arith}
use libcluon.Prelude.{ltb, if◌then◌else◌, bit_and, bit_xor}
use libcluon.Prelude.Bits.{bit_and-mask, bit_xor-zero, bit_xor-ones}
use libcluon.Prelude.Words.{ℤ, pos, negsuc, signed}
use native.Mathlib.Nat.{pow-suc, one-le-pow, mod-eq_of_lt, mod-eq-sub-mod, mod_self}

-- v >> (w - 1) on a signed v: all bits are the sign.
abbrev sign_fill : ℕ → ℕ → ℕ
sign_fill w v = if ltb v (2 ^ (w - 1)) then 0 else 2 ^ w - 1

-- (v << 1) ^ (v >> (w - 1))
unfoldable pub to_zig_zag : ℕ → ℕ → ℕ
to_zig_zag w v = bit_xor (v * 2 % 2 ^ w) (sign_fill w v)

-- -x at width w
abbrev negate : ℕ → ℕ → ℕ
negate w x = (2 ^ w - x) % 2 ^ w

-- (v >> 1) ^ -(v & 1)
unfoldable pub from_zig_zag : ℕ → ℕ → ℕ
from_zig_zag w v = bit_xor (v / 2) (negate w (bit_and v 1))

-- The map that the bit tricks compute: 0, -1, 1, -2, ... to 0, 1, 2, 3, ...
abbrev pub zig_zag : ℤ → ℕ
zig_zag (pos n) = 2 * n
zig_zag (negsuc n) = 2 * n + 1

half_power : (w : ℕ) → 2 ^ (suc w - 1) ≡ 2 ^ w
half_power w = ap (λ (t : ℕ). 2 ^ t) (omega arith)

double_low : (m v : ℕ) → v < m → v * 2 % (2 * m) ≡ 2 * v
double_low m v h = mod-eq_of_lt (omega arith) ∙ omega arith

double_high : (m v : ℕ) → m ≤ v → v < 2 * m → v * 2 % (2 * m) ≡ 2 * v - 2 * m
double_high m v l h =
    mod-eq-sub-mod {n = v * 2} {m = 2 * m} (omega arith)
    ∙ mod-eq_of_lt {n = v * 2 - 2 * m} {m = 2 * m} (omega arith)
    ∙ omega arith

-- At every width the shift-and-xor encoder is the zig-zag map on the integer that the two's
-- complement pattern stands for.
pub to_zig_zag-zig_zag :
    (w v : ℕ) → v < 2 ^ suc w → to_zig_zag (suc w) v ≡ zig_zag (signed (suc w) v)
unfolding to_zig_zag
to_zig_zag-zig_zag w v h = ground (
  arith,
  half_power w,
  pow-suc 2 w,
  double_low (2 ^ w) v,
  double_high (2 ^ w) v,
  bit_xor-zero (v * 2 % 2 ^ suc w),
  bit_xor-ones (suc w) (v * 2 % 2 ^ suc w),
)

-- -0 is 0, and -1 is a word of ones.
negate-zero : (w : ℕ) → negate w 0 ≡ 0
negate-zero w = ap (λ (t : ℕ). t % 2 ^ w) (omega arith) ∙ mod_self (2 ^ w)

negate-one : (w : ℕ) → negate w 1 ≡ 2 ^ w - 1
negate-one w = mod-eq_of_lt {n = 2 ^ w - 1} {m = 2 ^ w} (omega (arith, one-le-pow w 2))

from_zig_zag_even : (w k : ℕ) → from_zig_zag (suc w) (2 * k) ≡ k
unfolding from_zig_zag
from_zig_zag_even w k = rw (low_bit, half, negate-zero, bit_xor-zero)
  where
    low_bit : bit_and (2 * k) 1 ≡ 0
    low_bit = bit_and-mask 1 (2 * k) ∙ omega arith

    half : 2 * k / 2 ≡ k
    half = omega arith

from_zig_zag_odd : (w k : ℕ) → k < 2 ^ w → from_zig_zag (suc w) (2 * k + 1) ≡ 2 ^ suc w - 1 - k
unfolding from_zig_zag
from_zig_zag_odd w k h =
    rw (low_bit, half, negate-one, bit_xor-ones (suc w) k (omega (arith, pow-suc 2 w)))
  where
    low_bit : bit_and (2 * k + 1) 1 ≡ 1
    low_bit = bit_and-mask 1 (2 * k + 1) ∙ omega arith

    half : (2 * k + 1) / 2 ≡ k
    half = omega arith

-- At every width zig-zag decoding undoes zig-zag encoding, and the encoding fits the width.
pub from_zig_zag-to_zig_zag :
    (w v : ℕ)
    → v < 2 ^ suc w
    → (from_zig_zag (suc w) (to_zig_zag (suc w) v) ≡ v) × (to_zig_zag (suc w) v < 2 ^ suc w)
from_zig_zag-to_zig_zag w v h = ground (
  arith,
  to_zig_zag-zig_zag w v,
  half_power w,
  pow-suc 2 w,
  from_zig_zag_even w v,
  from_zig_zag_odd w (2 ^ suc w - 1 - v),
)
