-- ===== src/Base/Texts.antt =====
-- Strings as lists of bytes: literals, and the comparison `==` of `std::string`.
use Prim.Native.Char.{code}
use Prim.Native.Nat.{ℕ}
use Prim.Native.String.{String}
use mathlib.Core.Bool.{Bool, true, false, ◌&&◌}
use mathlib.Core.List.{List, [], ◌∷◌}
use mathlib.Core.Path.{◌≡◌, refl}
use native.Mathlib.Omega.{arith}
use yeyj_tcp_server.Base.Tests.{◌==◌}

abbrev pub codes : String → List ℕ
codes String.[] = []
codes (String.◌∷◌ c s) = code c ∷ codes s

unfoldable pub same : List ℕ → List ℕ → Bool
same [] [] = true
same (a ∷ xs) (b ∷ ys) = a == b && same xs ys
same [] (b ∷ ys) = false
same (a ∷ xs) [] = false

pub same_refl : (xs : List ℕ) → same xs xs ≡ true
unfolding same
same_refl [] = refl
same_refl (x ∷ xs) = ground (arith, same_refl xs)

pub eq_of_same : (xs ys : List ℕ) → same xs ys ≡ true → xs ≡ ys
unfolding same
eq_of_same [] [] h = refl
eq_of_same [] (y ∷ ys) h = absurd (cc h)
eq_of_same (x ∷ xs) [] h = absurd (cc h)
eq_of_same (x ∷ xs) (y ∷ ys) h = ground (arith, eq_of_same xs ys)
