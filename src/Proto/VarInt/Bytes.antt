-- ===== src/Proto/VarInt/Bytes.antt =====
-- The bytes of a VarInt in plain arithmetic, and that reading them back gives the number.
use libcluon.Prelude.{ℕ, zero, suc, ◌+◌, ◌*◌, ◌/◌, ◌%◌, ◌^◌, ◌≤◌, ◌<◌, ◌≡◌, ap, ◌∙◌, arith}
use libcluon.Prelude.{List, [], ◌∷◌, ◌++◌, ltb, if◌then◌else◌}
use libcluon.Prelude.{length, append_assoc}
use libcluon.Prelude.{All}
use libcluon.Prelude.Bits.{bit_and-mask, bit_and-top_bit, bit_or-field}
use libcluon.Prelude.Words.{IsByte}
use libcluon.Stream.{stream}
use libcluon.Proto.VarInt.{more_byte, last_byte, to_var_int_loop, to_var_int, add_group}
use libcluon.Proto.VarInt.{from_var_int_loop, from_var_int}
use native.Mathlib.Nat.{mod-eq_of_lt, div-add-mod}
use native.Mathlib.Numerals.{towards_suc}

-- Groups of seven bits, lowest first, with the top bit set on all but the last.
unfoldable pub var_int_bytes : ℕ → ℕ → List ℕ
var_int_bytes zero v = v ∷ []
var_int_bytes (suc k) v =
    let rest = var_int_bytes k (v / 128) in if ltb 0x7f v then (v % 128 + 128) ∷ rest else v ∷ []

more_byte_lem : (v : ℕ) → more_byte v ≡ v % 128 + 128
more_byte_lem v = ground (arith, bit_and-mask 7 v, bit_or-field 7 1 (v % 128))

last_byte_lem : (v : ℕ) → v < 128 → last_byte v ≡ v
last_byte_lem v h = ground (arith, bit_and-mask 7 (v % 256))

to_var_int_loop-bytes :
    (k : ℕ) (out : List ℕ) (v size : ℕ)
    → v < 128 ^ suc k
    → (to_var_int_loop k out v size).0 ≡ out ++ var_int_bytes k v
unfolding to_var_int_loop var_int_bytes
to_var_int_loop-bytes zero out v size h = ground (arith, last_byte_lem v)
to_var_int_loop-bytes (suc k) out v size h = ground (
  arith,
  last_byte_lem v,
  more_byte_lem v,
  to_var_int_loop-bytes k (out ++ (more_byte v ∷ [])) (v / 128) (size + 1) (omega arith),
  append_assoc out ((v % 128 + 128) ∷ []) (var_int_bytes k (v / 128)),
)

to_var_int_loop-size :
    (k : ℕ) (out : List ℕ) (v size : ℕ)
    → (to_var_int_loop k out v size).1 + 1 ≡ size + length (var_int_bytes k v)
unfolding to_var_int_loop var_int_bytes
to_var_int_loop-size zero out v size = omega arith
to_var_int_loop-size (suc k) out v size =
    ground (arith, to_var_int_loop-size k (out ++ (more_byte v ∷ [])) (v / 128) (size + 1))

seven_more : (n : ℕ) → 2 ^ (7 * (n + 1)) ≡ 128 * 2 ^ (7 * n)
seven_more n = ap (λ (t : ℕ). 2 ^ t) seven ∙ simp towards_suc (omega arith)
  where
    seven : 7 * (n + 1) ≡ 7 * n + 7
    seven = omega arith

-- A group joins the value above the bits that are there, when the sum fits 64 bits.
add_group-sum :
    (value c size : ℕ)
    → value < 2 ^ (7 * size)
    → value + c % 128 * 2 ^ (7 * size) < 2 ^ 64
    → add_group value c size ≡ value + c % 128 * 2 ^ (7 * size)
add_group-sum value c size h fits = ground (
  arith,
  bit_and-mask 7 c,
  bit_or-field (7 * size) (c % 128) value,
  mod-eq_of_lt {n = c % 128 * 2 ^ (7 * size)} {m = 2 ^ 64},
)

-- One round on a last byte, and on a byte with the top bit set.
from_var_int_loop-last :
    (c value size : ℕ) (rest : List ℕ)
    → c < 128
    → from_var_int_loop (c ∷ rest) value size ≡ (add_group value c size, size + 1, stream rest)
unfolding from_var_int_loop
from_var_int_loop-last c value size rest h = rw (bit_and-top_bit c) (ground arith)

from_var_int_loop-more :
    (c value size : ℕ) (rest : List ℕ)
    → c / 128 % 2 ≡ 1
    → from_var_int_loop (c ∷ rest) value size
      ≡ from_var_int_loop rest (add_group value c size) (size + 1)
unfolding from_var_int_loop
from_var_int_loop-more c value size rest h = rw (bit_and-top_bit c, h)

-- What is left of `v` counts from the next group on.
groups_of :
    (v size : ℕ) → v * 2 ^ (7 * size) ≡ v % 128 * 2 ^ (7 * size) + v / 128 * 2 ^ (7 * (size + 1))
groups_of v size = omega (
  arith,
  ap (λ (t : ℕ). t * 2 ^ (7 * size)) (div-add-mod v 128),
  ap (λ (t : ℕ). v / 128 * t) (seven_more size),
)

group_below :
    (value c size : ℕ)
    → c < 128
    → value < 2 ^ (7 * size)
    → value + c * 2 ^ (7 * size) < 2 ^ (7 * (size + 1))
group_below value c size h hv = grind (arith, seven_more size)

from_var_int_loop-bytes :
    (k v value size : ℕ) (rest : List ℕ)
    → v < 128 ^ suc k
    → value < 2 ^ (7 * size)
    → value + v * 2 ^ (7 * size) < 2 ^ 64
    → from_var_int_loop (var_int_bytes k v ++ rest) value size
      ≡ (value + v * 2 ^ (7 * size), size + length (var_int_bytes k v), stream rest)
unfolding var_int_bytes
from_var_int_loop-bytes zero v value size rest h hv fits =
    ground (arith, from_var_int_loop-last v value size rest, add_group-sum value v size)
from_var_int_loop-bytes (suc k) v value size rest h hv fits = ground (
  arith,
  from_var_int_loop-last v value size rest,
  from_var_int_loop-more (v % 128 + 128) value size (var_int_bytes k (v / 128) ++ rest),
  add_group-sum value v size,
  add_group-sum value (v % 128 + 128) size,
  groups_of v size,
  group_below value (v % 128) size,
  from_var_int_loop-bytes k (v / 128) (value + v % 128 * 2 ^ (7 * size)) (size + 1) rest
      (omega arith),
)

-- Both directions for a uint64_t.
pub to_var_int-bytes :
    (out : List ℕ) (v : ℕ)
    → v < 2 ^ 64
    → to_var_int out v ≡ (out ++ var_int_bytes 9 v, length (var_int_bytes 9 v))
unfolding to_var_int
to_var_int-bytes out v h =
    ground (arith, to_var_int_loop-bytes 9 out v 1 (omega arith), to_var_int_loop-size 9 out v 1)

pub from_var_int-bytes :
    (v : ℕ) (rest : List ℕ)
    → v < 2 ^ 64
    → from_var_int (stream (var_int_bytes 9 v ++ rest))
      ≡ (v, length (var_int_bytes 9 v), stream rest)
unfolding from_var_int
from_var_int-bytes v rest h = ground (arith, from_var_int_loop-bytes 9 v 0 0 rest (omega arith))

pub var_int_bytes_lengths :
    (k v : ℕ) → (1 ≤ length (var_int_bytes k v)) × (length (var_int_bytes k v) ≤ suc k)
unfolding var_int_bytes
var_int_bytes_lengths zero v = omega arith
var_int_bytes_lengths (suc k) v = ground (arith, var_int_bytes_lengths k (v / 128))

pub var_int_bytes-IsByte : (k v : ℕ) → v < 128 ^ suc k → All IsByte (var_int_bytes k v)
unfolding var_int_bytes
var_int_bytes-IsByte zero v h = omega arith
var_int_bytes-IsByte (suc k) v h = ground (arith, var_int_bytes-IsByte k (v / 128) (omega arith))

-- For every 64-bit number fromVarInt reads back what toVarInt wrote, takes as many bytes as
-- toVarInt counted and leaves the bytes behind, and these are 1 to 10 bytes.
pub from_var_int-to_var_int :
    (v : ℕ) (rest : List ℕ)
    → v < 2 ^ 64
    → (from_var_int (stream ((to_var_int [] v).0 ++ rest)) ≡ (v, (to_var_int [] v).1, stream rest))
      × (1 ≤ (to_var_int [] v).1)
      × ((to_var_int [] v).1 ≤ 10)
from_var_int-to_var_int v rest h =
    let (low, high) = var_int_bytes_lengths 9 v in
    rw (to_var_int-bytes [] v h) (from_var_int-bytes v rest h, low, high)
