-- ===== src/Tests/Buffers.antt =====
-- The theorems on `Buffer` at small rings.
use yeyj_tcp_server.Base.{
  ℕ, zero, suc, store, replicate, ◌+◌, ◌%◌, ◌<◌, ◌≡◌, refl, arith, true, false, List, [], ◌∷◌, pos,
  ok, fault, uninitialised, out_of_range, assertion, missing_return, ◌>>=◌, Returns, mul_int,
  add_int,
}
use yeyj_tcp_server.Buffer.Faults.{three_halves-Grows, put_char-skip_tail}
use yeyj_tcp_server.Buffer.Peek.{
  AllDigits, peek_unfinished, peek_empty, peek_without_length, without_length,
}
use yeyj_tcp_server.Buffer.Queue.{Op, put, get, look, skip, calls, serves, calls-serves}
use yeyj_tcp_server.Buffer.Read.{copy-read}
use yeyj_tcp_server.Buffer.Ring.{contents, IsValid}
use yeyj_tcp_server.Buffer.{
  Buffer, three_halves, new, empty, is_full, get_space, clear, read, read_as_string, copy,
  skip_tail, rem_int, end_less, put_char, get_char, next_end, grow, grow_size, write, make_room,
  need_grow, can_grow, write_loop, fill, is_digit, peek_loop, peek_char, peek_int_with_length,
  peek_int_without_length,
}

-- "ABC", round the end of the array
abbrev letters : Buffer
letters = record {
  bytes = 67 ∷ 0 ∷ 65 ∷ 66 ∷ [];
  current_size = 4;
  max_size = 6;
  begin = 2;
  end = pos 1;
  count = 3;
  grow_factor = three_halves;
}

letters-IsValid : IsValid letters
letters-IsValid = record {
  storage = refl;
  growable = omega arith;
  bounded = omega arith;
  small = omega arith;
  begin_in = omega arith;
  count_in = omega arith;
  end_at = refl;
}

-- the bytes of a read buffer of 8
abbrev pub holding : ℕ → ℕ → ℕ → ℕ → Buffer
holding n a b c = record {
  bytes = a ∷ b ∷ c ∷ 0 ∷ [];
  current_size = 4;
  max_size = 8;
  begin = 0;
  end = pos n;
  count = n;
  grow_factor = three_halves;
}

pub holding-IsValid : (n a b c : ℕ) → n < 4 → IsValid (holding n a b c)
holding-IsValid n a b c h = record {
  storage = refl;
  growable = omega arith;
  bounded = omega arith;
  small = omega arith;
  begin_in = omega arith;
  count_in = omega arith;
  end_at = let e : (0 + n) % 4 ≡ n = omega arith in rw e;
}

abbrev pub ten_digits : Buffer
ten_digits = record {
  bytes = b'9' ∷ b'9' ∷ b'9' ∷ b'9' ∷ b'9' ∷ b'9' ∷ b'9' ∷ b'9' ∷ b'9' ∷ b'9' ∷ b' ' ∷ 0 ∷ [];
  current_size = 12;
  max_size = 12;
  begin = 0;
  end = pos 11;
  count = 11;
  grow_factor = three_halves;
}

pub ten_digits-IsValid : IsValid ten_digits
ten_digits-IsValid = record {
  storage = refl;
  growable = omega arith;
  bounded = omega arith;
  small = omega arith;
  begin_in = omega arith;
  count_in = omega arith;
  end_at = refl;
}

pub nines-AllDigits : (n : ℕ) → AllDigits (replicate n b'9')
unfolding is_digit
nines-AllDigits zero = tt
nines-AllDigits (suc n) = (refl, nines-AllDigits n)

-- `write` grows the ring, and stops at the largest size.
write_runs :
    Returns
      (write letters (68 ∷ 69 ∷ 70 ∷ 71 ∷ []))
      λ r. (r.0 ≡ 3) × (contents r.1 ≡ 65 ∷ 66 ∷ 67 ∷ 68 ∷ 69 ∷ 70 ∷ [])
unfolding write make_room need_grow can_grow grow grow_size read fill write_loop put_char next_end
    store
write_runs = (_, refl, (refl, refl))

new_runs :
    Returns
      (new 2 4 three_halves)
      λ b. (empty b ≡ true) × (is_full b ≡ false) × (get_space (clear b) ≡ 2)
unfolding new empty is_full get_space clear
new_runs = (_, refl, (refl, refl, refl))

new_refuses : new 5 4 three_halves ≡ fault assertion
unfolding new
new_refuses = refl

skip_tail_runs : Returns (skip_tail letters 1) λ b. contents b ≡ 65 ∷ 66 ∷ []
unfolding skip_tail rem_int end_less
skip_tail_runs = (_, refl, refl)

read_as_string_runs :
    read_as_string (holding 3 65 0 66) 3
    ≡ ok (65 ∷ [], record (holding 3 65 0 66) { begin = 3; count = 0 })
unfolding read_as_string
read_as_string_runs = refl

peek_runs : peek_int_without_length (holding 3 b'1' b'2' b' ') b' ' ≡ ok (true, 12)
unfolding peek_int_without_length peek_loop peek_char is_digit mul_int add_int
peek_runs = refl

get_char_fails : get_char letters ≡ fault missing_return
unfolding get_char
get_char_fails = refl

copy-read_example : Returns (read letters 2) λ r. copy letters 2 ≡ ok r.0
copy-read_example = copy-read 2 letters-IsValid

abbrev session : List Op
session = put (68 ∷ 69 ∷ []) ∷ look 2 ∷ get 4 ∷ put (70 ∷ []) ∷ skip 3 ∷ []

calls-serves_example : calls letters session ≡ serves 6 (65 ∷ 66 ∷ 67 ∷ []) session
calls-serves_example = calls-serves session letters-IsValid three_halves-Grows (omega arith)

put_char-skip_tail_example : (skip_tail letters 2 >>= λ b. put_char b 90) ≡ fault out_of_range
put_char-skip_tail_example =
    put_char-skip_tail 2 90 1 letters refl (omega arith) (omega arith) (omega arith)

peek_unfinished_example : peek_int_with_length (holding 2 b'1' b'2' 0) b' ' ≡ ok (false, 12, 2)
unfolding is_digit
peek_unfinished_example =
    peek_unfinished (holding-IsValid 2 b'1' b'2' 0 (omega arith)) b' ' b'1' (b'2' ∷ []) refl
      (refl, (refl, tt)) refl (omega arith)

peek_empty_example : peek_int_with_length (holding 0 0 0 0) b' ' ≡ fault uninitialised
peek_empty_example = peek_empty (holding-IsValid 0 0 0 0 (omega arith)) b' ' refl

peek_without_length_example :
    peek_int_without_length letters b' ' ≡ without_length (peek_int_with_length letters b' ')
peek_without_length_example = peek_without_length letters b' '
