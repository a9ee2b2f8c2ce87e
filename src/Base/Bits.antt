-- ===== src/Base/Bits.antt =====
-- `bit_and` with a mask stays at or below the mask.
use Prim.Native.Nat.{ℕ, zero, suc, ◌+◌, ◌*◌, ◌/◌, ◌%◌, ◌≤◌, min, bit_and, digits, bit_and-bitwise}
use mathlib.Core.Path.{◌≡◌, refl}
use native.Mathlib.Omega.{arith}

abbrev and_digits : ℕ → ℕ → ℕ → ℕ
and_digits n a b = digits (λ b. zero) min n a b

-- The recursion over the digits stays below its second number, whatever its fuel.
and_digits-le : (n a b : ℕ) → and_digits n a b ≤ b
and_digits-le zero zero b = omega arith
and_digits-le zero (suc a) b = omega arith
and_digits-le (suc n) zero b = omega arith
and_digits-le (suc n) (suc a) b = omega (arith, and_digits-le n (suc a / 2) (b / 2))

again :
    (m x q r b : ℕ)
    → x ≡ q * 2 + r
    → r ≤ 1
    → r ≤ b % 2
    → ((m : ℕ) → q ≤ m → and_digits m q (b / 2) ≡ q)
    → x ≤ m
    → and_digits m x b ≡ x
again zero x q r b e bit below halves h = omega arith
again (suc m) zero q r b e bit below halves h = refl
again (suc m) (suc x) q r b e bit below halves h =
    let half : suc x / 2 ≡ q = omega arith in
    let odd : suc x % 2 ≡ r = omega arith in rw (half, odd) (omega (arith, halves m (omega arith)))

-- A number that has been masked stays as it is.
and_digits-twice :
    (n a b m : ℕ) → and_digits n a b ≤ m → and_digits m (and_digits n a b) b ≡ and_digits n a b
and_digits-twice zero a b zero h = refl
and_digits-twice zero a b (suc m) h = refl
and_digits-twice (suc n) zero b zero h = refl
and_digits-twice (suc n) zero b (suc m) h = refl
and_digits-twice (suc n) (suc a) b m h =
    again m _ (and_digits n (suc a / 2) (b / 2)) (min (suc a % 2) (b % 2)) b refl (omega arith)
      (omega arith) (λ m k. and_digits-twice n (suc a / 2) (b / 2) m k) h

pub bit_and-twice : (a b : ℕ) → bit_and (bit_and a b) b ≡ bit_and a b
bit_and-twice a b =
    rw (bit_and-bitwise a b, bit_and-bitwise (and_digits a a b) b)
      (and_digits-twice a a b (and_digits a a b) (omega arith))

pub bit_and-le : (a b : ℕ) → bit_and a b ≤ b
bit_and-le a b = omega (arith, bit_and-bitwise a b, and_digits-le a a b)
