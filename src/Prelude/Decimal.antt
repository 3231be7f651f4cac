-- ===== src/Prelude/Decimal.antt =====
-- Numbers in decimal, as a std::ostream writes them.
use libcluon.Prelude.{
  ℕ, zero, suc, ◌+◌, ◌-◌, ◌/◌, ◌%◌, ◌^◌, ◌≡◌, refl, List, [], ◌∷◌, ◌++◌, ltb, if◌then◌else◌,
}

-- Fewer than `fuel` digits are written before the last one.
unfoldable pub digits : ℕ → ℕ → List ℕ
digits zero n = []
digits (suc fuel) n =
    let before = digits fuel (n / 10) in
    if ltb n 10 then (48 + n) ∷ [] else before ++ (48 + n % 10) ∷ []

unfoldable pub decimal : ℕ → List ℕ
unfolding digits
decimal n = digits (suc n) n

-- A signed integer of w bits.
unfoldable pub signed_decimal : ℕ → ℕ → List ℕ
signed_decimal w n = if ltb n (2 ^ (w - 1)) then decimal n else 0x2D ∷ decimal (2 ^ w - n)

minus_three : signed_decimal 8 253 ≡ 0x2D ∷ 0x33 ∷ []
unfolding signed_decimal decimal
minus_three = refl

two_hundred : decimal 205 ≡ 0x32 ∷ 0x30 ∷ 0x35 ∷ []
unfolding decimal
two_hundred = refl
