-- ===== src/Base/Int.antt =====
-- The values of a C++ `int` that may fall below zero, such as `Buffer::_end`.
use Prim.Native.Nat.{ℕ, ◌-◌, ◌%◌, ◌^◌, ◌<◌}
use mathlib.Core.Bool.{true}
use mathlib.Core.Path.{◌≡◌}
use native.Mathlib.Omega.{arith}
use yeyj_tcp_server.Base.Tests.{leb, ltb, if◌then◌else◌}

-- `negsuc n` is -(n + 1).
pub data ℤ : Type 0 where
  pos : ℕ → ℤ
  negsuc : ℕ → ℤ

-- The conversion of an unsigned value to `int`, which keeps its last 32 bits.
unfoldable pub as_int : ℕ → ℤ
as_int n = if ltb (n % 2 ^ 32) (2 ^ 31) then pos (n % 2 ^ 32) else negsuc (2 ^ 32 - 1 - n % 2 ^ 32)

pub as_int-pos : (n : ℕ) → n < 2 ^ 31 → as_int n ≡ pos n
unfolding as_int
as_int-pos n h =
    let exact : n % 2 ^ 32 ≡ n = omega arith in
    let small : ltb n (2 ^ 31) ≡ true = ground arith in rw (exact, small)

-- a - b, as an integer.
abbrev pub sub_ℕ : ℕ → ℕ → ℤ
sub_ℕ a b = if leb b a then pos (a - b) else negsuc (b - a - 1)
