-- ===== src/Prelude/Texts.antt =====
-- operator== of std::string, on lists of bytes.
use Prim.Native.Nat.{ℕ}
use mathlib.Core.Path.{◌≡◌, refl, ap, ◌∙◌}
use mathlib.Core.Bool.{Bool, true, false, ◌&&◌}
use mathlib.Core.List.{List, [], ◌∷◌}
use native.Mathlib.Omega.{arith}
use libcluon.Prelude.Tests.{◌==◌}

unfoldable pub same : List ℕ → List ℕ → Bool
same [] [] = true
same [] (b ∷ bs) = false
same (a ∷ as') [] = false
same (a ∷ as') (b ∷ bs) = (a == b) && same as' bs

pub same_self : (k : List ℕ) → same k k ≡ true
unfolding same
same_self [] = refl
same_self (b ∷ k) = ground (arith, same_self k)

pub same_equal : (j k : List ℕ) → same j k ≡ true → j ≡ k
unfolding same
same_equal [] [] h = refl
same_equal [] (b ∷ k) h = ground arith
same_equal (a ∷ j) [] h = ground arith
same_equal (a ∷ j) (b ∷ k) h =
    let e : a ≡ b = ground arith in
    let f : same j k ≡ true = ground arith in ap (λ t. t ∷ j) e ∙ ap (λ t. b ∷ t) (same_equal j k f)
