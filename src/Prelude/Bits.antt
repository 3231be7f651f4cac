-- ===== src/Prelude/Bits.antt =====
-- Laws of the native bit operations at variables: the lowest digit, masks, disjoint fields and
-- complements, for every width.
use Prim.Native.Nat.{ℕ, zero, suc, ◌+◌, ◌-◌, ◌*◌, ◌/◌, ◌%◌, ◌^◌, ◌≤◌, ◌<◌, min, max}
use Prim.Native.Nat.{bit_and, bit_or, bit_xor, digits, bitwise, differ}
use Prim.Native.Nat.{bit_and-bitwise, bit_or-bitwise, bit_xor-bitwise}
use mathlib.Core.Path.{◌≡◌, refl, ap, ◌∙◌}
use native.Mathlib.Nat.{pow-suc, one-le-pow, div-div-eq-div-mul}
use native.Mathlib.Omega.{arith}

-- Any two counts of digits that cover the first number give one result.
module _ (z : ℕ → ℕ) (f : ℕ → ℕ → ℕ) where
  digits_agree : (i j x y : ℕ) → x ≤ i → x ≤ j → digits z f i x y ≡ digits z f j x y
  digits_agree zero zero x y hi hj = refl
  digits_agree zero (suc j) zero y hi hj = refl
  digits_agree (suc i) zero zero y hi hj = refl
  digits_agree (suc i) (suc j) zero y hi hj = refl
  digits_agree zero j (suc x) y hi hj = absurd (omega arith)
  digits_agree (suc i) zero (suc x) y hi hj = absurd (omega arith)
  digits_agree (suc i) (suc j) (suc x) y hi hj =
      ap (λ t. t * 2 + f (suc x % 2) (y % 2))
        (digits_agree i j (suc x / 2) (y / 2) (omega arith) (omega arith))

  bitwise_lowest :
      (x y : ℕ)
      → bitwise z f (suc x) y ≡ bitwise z f (suc x / 2) (y / 2) * 2 + f (suc x % 2) (y % 2)
  bitwise_lowest x y =
      ap (λ t. t * 2 + f (suc x % 2) (y % 2))
        (digits_agree x (suc x / 2) (suc x / 2) (y / 2) (omega arith) (omega arith))

bit_and_lowest : (x y : ℕ) → bit_and x y ≡ bit_and (x / 2) (y / 2) * 2 + min (x % 2) (y % 2)
bit_and_lowest zero y = omega (arith, bit_and-bitwise zero y, bit_and-bitwise zero (y / 2))
bit_and_lowest (suc x) y = omega (
  arith,
  bit_and-bitwise (suc x) y,
  bit_and-bitwise (suc x / 2) (y / 2),
  bitwise_lowest (λ b. 0) min x y,
)

bit_or_lowest : (x y : ℕ) → bit_or x y ≡ bit_or (x / 2) (y / 2) * 2 + max (x % 2) (y % 2)
bit_or_lowest zero y = omega (arith, bit_or-bitwise zero y, bit_or-bitwise zero (y / 2))
bit_or_lowest (suc x) y = omega (
  arith,
  bit_or-bitwise (suc x) y,
  bit_or-bitwise (suc x / 2) (y / 2),
  bitwise_lowest (λ b. b) max x y,
)

bit_xor_lowest : (x y : ℕ) → bit_xor x y ≡ bit_xor (x / 2) (y / 2) * 2 + differ (x % 2) (y % 2)
bit_xor_lowest zero y = omega (arith, bit_xor-bitwise zero y, bit_xor-bitwise zero (y / 2))
bit_xor_lowest (suc x) y = omega (
  arith,
  bit_xor-bitwise (suc x) y,
  bit_xor-bitwise (suc x / 2) (y / 2),
  bitwise_lowest (λ b. b) differ x y,
)

-- Results with the second number zero, by digits of the first; `n` bounds their count.
bit_or-zero_below : (n x : ℕ) → x ≤ n → bit_or x 0 ≡ x
bit_or-zero_below n zero h = refl
bit_or-zero_below zero (suc x) h = absurd (omega arith)
bit_or-zero_below (suc n) (suc x) h =
    omega (arith, bit_or_lowest (suc x) 0, bit_or-zero_below n (suc x / 2) (omega arith))

pub bit_or-zero : (x : ℕ) → bit_or x 0 ≡ x
bit_or-zero x = bit_or-zero_below x x (omega arith)

bit_and-zero_below : (n x : ℕ) → x ≤ n → bit_and x 0 ≡ 0
bit_and-zero_below n zero h = refl
bit_and-zero_below zero (suc x) h = absurd (omega arith)
bit_and-zero_below (suc n) (suc x) h =
    omega (arith, bit_and_lowest (suc x) 0, bit_and-zero_below n (suc x / 2) (omega arith))

differ-zero : (d : ℕ) → differ d 0 ≡ d
differ-zero zero = refl
differ-zero (suc d) = refl

differ-one : (d : ℕ) → d < 2 → differ d 1 ≡ 1 - d
differ-one zero h = refl
differ-one (suc zero) h = refl
differ-one (suc (suc d)) h = absurd (omega arith)

double_power : (q k : ℕ) → q * 2 ^ suc k ≡ 2 * (q * 2 ^ k)
double_power q k = omega (arith, ap (λ (t : ℕ). q * t) (pow-suc 2 k))

-- A mask of the `k` lowest bits keeps the lowest field.
mask_field : (k q r : ℕ) → r < 2 ^ k → bit_and (q * 2 ^ k + r) (2 ^ k - 1) ≡ r
mask_field zero q r h = omega (arith, bit_and-zero_below (q * 1 + r) (q * 1 + r))
mask_field (suc k) q r h = ground (
  arith,
  bit_and_lowest (q * 2 ^ suc k + r) (2 ^ suc k - 1),
  double_power q k,
  pow-suc 2 k,
  one-le-pow k 2,
  mask_field k q (r / 2),
)

pub bit_and-mask : (k x : ℕ) → bit_and x (2 ^ k - 1) ≡ x % 2 ^ k
bit_and-mask k x = ground (arith, one-le-pow k 2, mask_field k (x / 2 ^ k) (x % 2 ^ k))

bit_and-double : (x m : ℕ) → bit_and x (2 * m) ≡ 2 * bit_and (x / 2) m
bit_and-double x m = ground (arith, bit_and_lowest x (2 * m))

-- The top bit of a byte.
pub bit_and-top_bit : (x : ℕ) → bit_and x 0x80 ≡ x / 128 % 2 * 128
bit_and-top_bit x = omega (
  arith,
  bit_and-double x 64,
  bit_and-double (x / 2) 32,
  bit_and-double (x / 2 / 2) 16,
  bit_and-double (x / 2 / 2 / 2) 8,
  bit_and-double (x / 2 / 2 / 2 / 2) 4,
  bit_and-double (x / 2 / 2 / 2 / 2 / 2) 2,
  bit_and-double (x / 2 / 2 / 2 / 2 / 2 / 2) 1,
  bit_and-mask 1 (x / 2 / 2 / 2 / 2 / 2 / 2 / 2),
)

-- Fields that share no bit are joined by addition, whichever stands first.
pub bit_or-field : (k q r : ℕ) → r < 2 ^ k → bit_or r (q * 2 ^ k) ≡ r + q * 2 ^ k
bit_or-field zero q r h = ground (arith, bit_or-bitwise 0 (q * 1))
bit_or-field (suc k) q r h =
    ground (arith, bit_or_lowest r (q * 2 ^ suc k), double_power q k, bit_or-field k q (r / 2))

pub field-bit_or : (k q r : ℕ) → r < 2 ^ k → bit_or (q * 2 ^ k) r ≡ q * 2 ^ k + r
field-bit_or zero q r h = ground (arith, bit_or-zero q)
field-bit_or (suc k) q r h =
    ground (arith, bit_or_lowest (q * 2 ^ suc k) r, double_power q k, field-bit_or k q (r / 2))

-- Exclusive or with nothing, and with `k` ones.
bit_xor-zero_below : (n x : ℕ) → x ≤ n → bit_xor x 0 ≡ x
bit_xor-zero_below n zero h = refl
bit_xor-zero_below zero (suc x) h = absurd (omega arith)
bit_xor-zero_below (suc n) (suc x) h = omega (
  arith,
  bit_xor_lowest (suc x) 0,
  differ-zero (suc x % 2),
  bit_xor-zero_below n (suc x / 2) (omega arith),
)

pub bit_xor-zero : (x : ℕ) → bit_xor x 0 ≡ x
bit_xor-zero x = bit_xor-zero_below x x (omega arith)

pub bit_xor-ones : (k x : ℕ) → x < 2 ^ k → bit_xor x (2 ^ k - 1) ≡ 2 ^ k - 1 - x
bit_xor-ones zero x h = omega (arith, bit_xor-zero x)
bit_xor-ones (suc k) x h = ground (
  arith,
  bit_xor_lowest x (2 ^ suc k - 1),
  differ-one (x % 2),
  pow-suc 2 k,
  one-le-pow k 2,
  bit_xor-ones k (x / 2),
)

-- A mask that is moved up by `k` digits.
pub bit_and-shifted : (k x m : ℕ) → bit_and x (m * 2 ^ k) ≡ bit_and (x / 2 ^ k) m * 2 ^ k
bit_and-shifted zero x m =
    ap (λ (t : ℕ). bit_and x t) {x = m * 2 ^ 0} {y = m} (omega arith)
    ∙ ap (λ (t : ℕ). bit_and t m) {x = x} {y = x / 2 ^ 0} (omega arith)
    ∙ omega arith
bit_and-shifted (suc k) x m =
    let q : x / 2 / 2 ^ k ≡ x / 2 ^ suc k =
      div-div-eq-div-mul x 2 (2 ^ k)
      ∙ ap (λ (t : ℕ). x / t) {x = 2 * 2 ^ k} {y = 2 ^ suc k} (omega (arith, pow-suc 2 k)) in
    ap (λ (t : ℕ). bit_and x t) (double_power m k)
    ∙ bit_and-double x (m * 2 ^ k)
    ∙ omega (
      arith,
      bit_and-shifted k (x / 2) m,
      ap (λ (t : ℕ). bit_and t m * 2 ^ k) q,
      double_power (bit_and (x / 2 ^ suc k) m) k,
    )
