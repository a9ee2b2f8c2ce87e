-- ===== src/Buffer/Faults.antt =====
-- Where the methods of `Buffer` go wrong, and what rules it out.
use yeyj_tcp_server.Base.{
  ℕ, zero, suc, ◌+◌, ◌-◌, ◌*◌, ◌/◌, ◌%◌, ◌≤◌, ◌<◌, ◌≡◌, refl, arith, true, false, pos, negsuc, leb,
  ltb, ok, fault, endless, out_of_range, ◌>>=◌, to_int, to_int-ok, store, ◌==◌,
}
use yeyj_tcp_server.Buffer.Write.{Grows}
use yeyj_tcp_server.Buffer.{Buffer, three_halves, grow_size, skip_tail, put_char, end_less, rem_int}

-- The default factor grows every size from 2 on.
pub three_halves-Grows : Grows three_halves
three_halves-Grows n h = omega arith

-- A size of 0 or 1 stays as it is under the default factor: the loop of `grow` makes no progress
-- towards a larger capacity, however many rounds it has.
pub grow_size-endless :
    (rounds size capacity : ℕ)
    → size ≤ 1
    → size < capacity
    → grow_size rounds three_halves size capacity ≡ fault endless
unfolding grow_size to_int
grow_size-endless zero size capacity h below = refl
grow_size-endless (suc rounds) size capacity h below =
    let same : size * 3 / 2 ≡ size = omega arith in
    let test : ltb size capacity ≡ true = ground arith in
    rw (test, same, to_int-ok size (omega arith)) (grow_size-endless rounds size capacity h below)

-- `_end` is `e`, and `n` leads to before the array.
below_array :
    (n e size : ℕ)
    → e < n
    → n < e + size
    → rem_int (end_less (pos e) n) size ≡ ok (negsuc (n - e - 1))
unfolding rem_int end_less
below_array n e zero less part = absurd (omega arith)
below_array n e (suc m) less part =
    let front : leb n e ≡ false = ground arith in
    let step : n - e - 1 + 1 ≡ n - e = omega arith in
    let same : (n - e) % suc m ≡ n - e = grind arith in
    let more : (n - e == 0) ≡ false = ground arith in rw (front, step, same, more)

-- After `skipTail(n)` with `n` at most `size()` but above `_end`, less than a whole round above,
-- `_end` is negative and the next `putChar` writes outside the array.
pub put_char-skip_tail :
    (n c e : ℕ) (b : Buffer)
    → b.end ≡ pos e
    → e < n
    → n ≤ b.count
    → n < e + b.current_size
    → (skip_tail b n >>= λ b'. put_char b' c) ≡ fault out_of_range
unfolding skip_tail put_char store
put_char-skip_tail n c e b at_e less le part =
    let enough : leb n b.count ≡ true = ground arith in
    rw (enough, at_e, below_array n e b.current_size less part)
