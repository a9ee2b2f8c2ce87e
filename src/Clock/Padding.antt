-- ===== src/Clock/Padding.antt =====
-- How long the digits of a number are, with and without padding.
use yeyj_tcp_server.Base.{
  ℕ, zero, suc, ◌+◌, ◌-◌, ◌*◌, ◌/◌, ◌%◌, ◌≤◌, ◌<◌, ◌≡◌, refl, ◌∙◌, arith, List, [], ◌∷◌, ◌++◌, ◌==◌,
  Bool-cases, inl, inr, length, length-append, length-replicate, replicate,
}
use yeyj_tcp_server.Buffer.Peek.{AllDigits, value}
use yeyj_tcp_server.Buffer.{is_digit}
use yeyj_tcp_server.Clock.{padded}
use yeyj_tcp_server.Text.Decimal.{decimal-AllDigits, value-decimal}
use yeyj_tcp_server.Text.{digits_loop, decimal}

-- 10 to a power.
abbrev pub tens : ℕ → ℕ
tens zero = 1
tens (suc k) = 10 * tens k

digits_loop_short :
    (k rounds n : ℕ) (out : List ℕ)
    → n < tens (suc k)
    → length (digits_loop rounds n out) ≤ suc k + length out
unfolding digits_loop
digits_loop_short k zero n out h = omega arith
digits_loop_short zero (suc rounds) n out h = elim (Bool-cases (n / 10 == 0)) [
  | inl last ↦ rw last (omega arith)
  | inr more ↦ absurd (ground arith)
]
digits_loop_short (suc k) (suc rounds) n out h = elim (Bool-cases (n / 10 == 0)) [
  | inl last ↦ rw last (omega arith)
  | inr more ↦
      rw more
        (omega (arith, digits_loop_short k rounds (n / 10) ((b'0' + n % 10) ∷ out) (omega arith)))
]

digits_loop_long :
    (k rounds n : ℕ) (out : List ℕ)
    → n < rounds
    → tens k ≤ n
    → suc k + length out ≤ length (digits_loop rounds n out)
unfolding digits_loop
digits_loop_long k zero n out h large = absurd (omega arith)
digits_loop_long zero (suc rounds) n out h large = elim (Bool-cases (n / 10 == 0)) [
  | inl last ↦ rw last (omega arith)
  | inr more ↦ rw more (
      omega (
        arith,
        digits_loop_long zero rounds (n / 10) ((b'0' + n % 10) ∷ out) (ground arith) (ground arith),
      ))
]
digits_loop_long (suc k) (suc rounds) n out h large = elim (Bool-cases (n / 10 == 0)) [
  | inl last ↦ absurd (ground (arith, tens_positive k))
  | inr more ↦ rw more (
      omega (
        arith,
        digits_loop_long k rounds (n / 10) ((b'0' + n % 10) ∷ out) (ground arith) (omega arith),
      ))
]
  where
    tens_positive : (k : ℕ) → 0 < tens k
    tens_positive zero = omega arith
    tens_positive (suc k) = omega (arith, tens_positive k)

-- A number below 10^(k+1) has at most k + 1 digits, and one from 10^k on has more than k.
pub decimal_short : (k n : ℕ) → n < tens (suc k) → length (decimal n) ≤ suc k
unfolding decimal
decimal_short k n h = omega (arith, digits_loop_short k (n + 1) n [] h)

pub decimal_long : (k n : ℕ) → tens k ≤ n → suc k ≤ length (decimal n)
unfolding decimal
decimal_long k n h = omega (arith, digits_loop_long k (n + 1) n [] (omega arith) h)

pub length-padded :
    (fill width n : ℕ) → length (decimal n) ≤ width → length (padded fill width n) ≡ width
unfolding padded
length-padded fill width n h =
    length-append (replicate (width - length (decimal n)) fill) (decimal n)
    ∙ omega (arith, length-replicate (width - length (decimal n)) fill)

-- Nothing is filled in front of a number that is long enough.
pub padded_full : (fill width n : ℕ) → width ≤ length (decimal n) → padded fill width n ≡ decimal n
unfolding padded
padded_full fill width n h =
    let none_missing : width - length (decimal n) ≡ 0 = omega arith in rw none_missing

zeros-AllDigits : (k : ℕ) (cs : List ℕ) → AllDigits cs → AllDigits (replicate k b'0' ++ cs)
unfolding is_digit
zeros-AllDigits zero cs h = h
zeros-AllDigits (suc k) cs h = (refl, zeros-AllDigits k cs h)

value-zeros : (k : ℕ) (cs : List ℕ) → value 0 (replicate k b'0' ++ cs) ≡ value 0 cs
value-zeros zero cs = refl
value-zeros (suc k) cs = value-zeros k cs

pub padded-AllDigits : (width n : ℕ) → AllDigits (padded b'0' width n)
unfolding padded
padded-AllDigits width n =
    zeros-AllDigits (width - length (decimal n)) (decimal n) (decimal-AllDigits n)

pub value-padded : (width n : ℕ) → value 0 (padded b'0' width n) ≡ n
unfolding padded
value-padded width n = value-zeros (width - length (decimal n)) (decimal n) ∙ value-decimal n
