-- ===== src/Prelude/Words.antt =====
-- Machine words: little and big endian bytes, and the integer that a two's complement pattern of
-- `w` bits stands for.
use Prim.Native.Nat.{ℕ, zero, suc, ◌+◌, ◌-◌, ◌*◌, ◌/◌, ◌%◌, ◌^◌, ◌<◌}
use mathlib.Core.Path.{◌≡◌, refl, ap}
use mathlib.Core.List.{List, [], ◌∷◌, ◌++◌}
use native.Mathlib.Nat.{pow-suc}
use native.Mathlib.Omega.{arith}
use libcluon.Prelude.Tests.{ltb, if◌then◌else◌}
use libcluon.Prelude.Lists.{length, length-append, All, All-append}

pub data ℤ : Type 0 where
  pos : ℕ → ℤ
  negsuc : ℕ → ℤ

-- The value of an intN_t whose two's complement pattern is `v`.
abbrev pub signed : ℕ → ℕ → ℤ
signed w v = if ltb v (2 ^ (w - 1)) then pos v else negsuc (2 ^ w - 1 - v)

abbrev pub IsByte : ℕ → Type 0
IsByte b = b < 256

-- The `n` lowest bytes of a word, lowest first and highest first.
unfoldable pub le_bytes : ℕ → ℕ → List ℕ
le_bytes zero v = []
le_bytes (suc n) v = (v % 256) ∷ le_bytes n (v / 256)

unfoldable pub from_le : List ℕ → ℕ
from_le [] = 0
from_le (b ∷ bs) = b + 256 * from_le bs

unfoldable pub be_bytes : ℕ → ℕ → List ℕ
be_bytes zero v = []
be_bytes (suc n) v = be_bytes n (v / 256) ++ ((v % 256) ∷ [])

-- Reading the highest byte first, onto what has been read.
unfoldable pub from_be_onto : ℕ → List ℕ → ℕ
from_be_onto acc [] = acc
from_be_onto acc (b ∷ bs) = from_be_onto (acc * 256 + b) bs

abbrev pub from_be : List ℕ → ℕ
from_be bs = from_be_onto 0 bs

pub length-le_bytes : (n v : ℕ) → length (le_bytes n v) ≡ n
unfolding le_bytes
length-le_bytes zero v = refl
length-le_bytes (suc n) v = ap suc (length-le_bytes n (v / 256))

pub length-be_bytes : (n v : ℕ) → length (be_bytes n v) ≡ n
unfolding be_bytes
length-be_bytes zero v = refl
length-be_bytes (suc n) v =
    omega
      (arith, length-append (be_bytes n (v / 256)) ((v % 256) ∷ []), length-be_bytes n (v / 256))

pub from_le-le_bytes : (n v : ℕ) → v < 256 ^ n → from_le (le_bytes n v) ≡ v
unfolding le_bytes from_le
from_le-le_bytes zero v h = omega arith
from_le-le_bytes (suc n) v h =
    omega (arith, pow-suc 256 n, from_le-le_bytes n (v / 256) (omega (arith, pow-suc 256 n)))

pub from_be_onto-append :
    (acc : ℕ) (xs : List ℕ) (b : ℕ)
    → from_be_onto acc (xs ++ (b ∷ [])) ≡ from_be_onto acc xs * 256 + b
unfolding from_be_onto
from_be_onto-append acc [] b = refl
from_be_onto-append acc (x ∷ xs) b = from_be_onto-append (acc * 256 + x) xs b

pub from_be-be_bytes : (n v : ℕ) → v < 256 ^ n → from_be (be_bytes n v) ≡ v
unfolding be_bytes
from_be-be_bytes zero v h = unfold from_be_onto in omega arith
from_be-be_bytes (suc n) v h = omega (
  arith,
  pow-suc 256 n,
  from_be_onto-append 0 (be_bytes n (v / 256)) (v % 256),
  from_be-be_bytes n (v / 256) (omega (arith, pow-suc 256 n)),
)

pub le_bytes-IsByte : (n v : ℕ) → All IsByte (le_bytes n v)
unfolding le_bytes
le_bytes-IsByte zero v = tt
le_bytes-IsByte (suc n) v = (omega arith, le_bytes-IsByte n (v / 256))

pub be_bytes-IsByte : (n v : ℕ) → All IsByte (be_bytes n v)
unfolding be_bytes
be_bytes-IsByte zero v = tt
be_bytes-IsByte (suc n) v = All-append IsByte _ _ (be_bytes-IsByte n (v / 256)) (omega arith, tt)
