-- ===== src/Server/Integers.antt =====
-- The numbers of the configuration: `atoi` of the standard library, and `convertToKB`.
use yeyj_tcp_server.Base.{
  ℕ, ◌+◌, ◌-◌, ◌*◌, ◌^◌, Bool, true, false, List, [], ◌∷◌, ◌==◌, leb, if◌then◌else◌, length, get_or,
  set, ℤ, pos, negsuc, sub_ℕ, int_max, Run, ok, fault, overflow, out_of_range, ◌>>=◌,
}
use yeyj_tcp_server.Buffer.{is_digit, c_string}
use yeyj_tcp_server.Text.{is_space}

-- An `int` of the given sign and size; what does not fit is undefined.
unfoldable pub int_of : Bool → ℕ → Run ℤ
int_of false n = if leb n int_max then ok (pos n) else fault overflow
int_of true n = if leb n (2 ^ 31) then ok (sub_ℕ 0 n) else fault overflow

-- `a * b` on `int`, where `a` is not negative.
unfoldable pub times_int : ℕ → ℤ → Run ℤ
unfolding int_of
times_int a (pos n) = int_of false (a * n)
times_int a (negsuc n) = int_of true (a * (n + 1))

unfoldable pub skip_spaces : List ℕ → List ℕ
unfolding is_space
skip_spaces [] = []
skip_spaces (c ∷ cs) = if is_space c then skip_spaces cs else c ∷ cs

-- The number that the digits at the front stand for, behind those that give `n`.
unfoldable pub leading_number : ℕ → List ℕ → ℕ
unfolding is_digit
leading_number n [] = n
leading_number n (c ∷ cs) = if is_digit c then leading_number (n * 10 + (c - b'0')) cs else n

-- The sign and the rest of a number.
unfoldable pub take_sign : List ℕ → Bool × List ℕ
take_sign [] = (false, [])
take_sign (c ∷ cs) =
    if c == b'-' then (true, cs) else if c == b'+' then (false, cs) else (false, c ∷ cs)

-- `atoi(s.data())`.
unfoldable pub atoi : List ℕ → Run ℤ
unfolding int_of skip_spaces leading_number take_sign c_string
atoi s =
    let (negative, digits) = take_sign (skip_spaces (c_string s)) in
    int_of negative (leading_number 0 digits)

-- The factor of a suffix.
unfoldable pub unit_factor : ℕ → ℕ
unit_factor c =
    if c == b'K' then 1 else if c == b'M' then 1024 else if c == b'G' then 1024 * 1024 else 0

-- `back()` of an empty string is undefined.
unfoldable pub convert_to_kb : List ℕ → Run ℤ
unfolding unit_factor times_int
convert_to_kb [] = fault out_of_range
convert_to_kb (c ∷ cs) = do
  n ← atoi (set (c ∷ cs) (length cs) 0)
  times_int (unit_factor (get_or (c ∷ cs) (length cs) 0)) n
