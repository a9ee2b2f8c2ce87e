-- ===== src/Server/Units.antt =====
-- `convertToKB` on a number with its unit.
use native.Mathlib.Decide.{dec_le}
use yeyj_tcp_server.Base.{
  ℕ, ◌+◌, ◌-◌, ◌*◌, ◌≤◌, ◌≡◌, refl, ap, ◌∙◌, arith, true, false, List, [], ◌∷◌, ◌++◌, append-nil,
  ◌==◌, leb, length, length-append, set_last, get_or, int_max, ◌>>=◌,
}
use yeyj_tcp_server.Buffer.Peek.{AllDigits, value}
use yeyj_tcp_server.Buffer.{is_digit, c_string}
use yeyj_tcp_server.Server.Integers.{
  int_of, times_int, skip_spaces, leading_number, take_sign, atoi, unit_factor, convert_to_kb,
}
use yeyj_tcp_server.Text.Decimal.{
  decimal-AllDigits, value-decimal, c_string_append, AllDigits-IsText,
}
use yeyj_tcp_server.Text.{decimal, is_space}

get_last : (w : List ℕ) (u : ℕ) → get_or (w ++ u ∷ []) (length w) 0 ≡ u
get_last [] u = refl
get_last (c ∷ cs) u = get_last cs u

convert_last :
    (w : List ℕ) (u : ℕ)
    → convert_to_kb (w ++ u ∷ []) ≡ (atoi (w ++ 0 ∷ []) >>= times_int (unit_factor u))
unfolding convert_to_kb
convert_last [] u = refl
convert_last (c ∷ cs) u =
    let n : length (cs ++ u ∷ []) ≡ length (c ∷ cs) = omega (arith, length-append cs (u ∷ [])) in
    rw (n, set_last cs u 0, get_last cs u)

skip_spaces_digits : (w : List ℕ) → AllDigits w → skip_spaces w ≡ w
unfolding skip_spaces is_digit
skip_spaces_digits [] h = refl
skip_spaces_digits (c ∷ cs) h = let solid : is_space c ≡ false = digit_solid c h.0 in rw solid
  where
    digit_solid : (c : ℕ) → is_digit c ≡ true → is_space c ≡ false
    digit_solid c k = ground arith

take_sign_digits : (w : List ℕ) → AllDigits w → take_sign w ≡ (false, w)
unfolding take_sign is_digit
take_sign_digits [] h = refl
take_sign_digits (c ∷ cs) h =
    let minus : (c == b'-') ≡ false = ground (arith, h.0) in
    let plus : (c == b'+') ≡ false = ground (arith, h.0) in rw (minus, plus)

leading_number_digits : (n : ℕ) (w : List ℕ) → AllDigits w → leading_number n w ≡ value n w
unfolding leading_number
leading_number_digits n [] h = refl
leading_number_digits n (c ∷ cs) h = rw h.0 (leading_number_digits (n * 10 + (c - b'0')) cs h.1)

pub atoi-decimal : (n : ℕ) → atoi (decimal n ++ 0 ∷ []) ≡ int_of false n
unfolding atoi
atoi-decimal n =
    let w = decimal n in
    let digits = decimal-AllDigits n in
    let cut : c_string (w ++ 0 ∷ []) ≡ w =
      c_string_append w (0 ∷ []) (AllDigits-IsText w digits) ∙ append-nil w in
    rw (
      cut,
      skip_spaces_digits w digits,
      take_sign_digits w digits,
      leading_number_digits 0 w digits,
      value-decimal n,
    )

scaled : (f n : ℕ) → 1 ≤ f → n ≤ f * n → (int_of false n >>= times_int f) ≡ int_of false (f * n)
unfolding int_of times_int
scaled f n some_factor grows = elim (dec_le (f * n) int_max) [
  | yes small ↦ let e : leb n int_max ≡ true = ground arith in rw e
  | no big ↦ elim (dec_le n int_max) [
    | yes fits ↦ let e : leb n int_max ≡ true = ground arith in rw e
    | no large ↦
        let e : leb n int_max ≡ false = ground arith in
        let e' : leb (f * n) int_max ≡ false = ground arith in rw (e, e')
  ]
]

-- `convertToKB` of a number in decimal with the suffix K, M or G is the number times 1, 1024 or 1024
-- times 1024, where this is in the range of int, and overflows otherwise.
pub convert_to_kb_lem :
    (n u : ℕ)
    → 1 ≤ unit_factor u
    → convert_to_kb (decimal n ++ u ∷ []) ≡ int_of false (unit_factor u * n)
convert_to_kb_lem n u known =
    convert_last (decimal n) u
    ∙ ap (λ r. r >>= times_int (unit_factor u)) (atoi-decimal n)
    ∙ scaled (unit_factor u) n known (grind arith)
