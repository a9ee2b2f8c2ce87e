-- ===== src/Buffer/Read.antt =====
-- `read`, `copy`, `skipHead` and `peekChar`: what they take from the front of a buffer.
use native.Mathlib.Nat.{mod-add-mod}
use yeyj_tcp_server.Base.{
  ℕ, zero, suc, ◌+◌, ◌-◌, ◌%◌, ◌≤◌, ◌<◌, min, ◌≡◌, refl, sym, ◌∙◌, leb, true, false, take-min,
  drop-min, int_max, Returns, arith, ltb, if◌then◌else◌, ok, fault, assertion, get_or, take, drop,
  add_int-ok, mod_int-ok, at-ok,
}
use yeyj_tcp_server.Buffer.Ring.{
  take-ring, contents, IsValid, drop-ring, get_or-ring, length-contents, ring,
}
use yeyj_tcp_server.Buffer.{
  Buffer, advance, take_byte, read_loop, read, copy_loop, copy, skip_head, peek_char,
}

pub advance-ok :
    (i n size : ℕ) → 0 < size → i + n ≤ int_max → advance i n size ≡ ok ((i + n) % size)
unfolding advance
advance-ok i n size h le = rw (add_int-ok i n le, mod_int-ok (i + n) size h)

-- The buffer after its first `n` bytes have gone.
abbrev pub after : ℕ → Buffer → Buffer
after n b = record b { begin = (b.begin + n) % b.current_size; count = b.count - n }

pub after-IsValid : (n : ℕ) {b : Buffer} → IsValid b → n ≤ b.count → IsValid (after n b)
after-IsValid n {b} v le = record {
  storage = v.storage;
  growable = v.growable;
  bounded = v.bounded;
  small = v.small;
  begin_in = grind (arith, v.growable);
  count_in = omega arith;
  end_at =
      rw mod-add-mod
        (let e : b.begin + n + (b.count - n) ≡ b.begin + b.count = omega arith in rw e v.end_at);
}

pub contents-after :
    (n : ℕ) {b : Buffer} → IsValid b → n ≤ b.count → contents (after n b) ≡ drop n (contents b)
contents-after n {b} v le = sym (drop-ring b.bytes b.current_size n b.begin b.count v.begin_in le)

after-zero : {b : Buffer} → IsValid b → after 0 b ≡ b
after-zero {b} v =
    let e : (b.begin + 0) % b.current_size ≡ b.begin = grind (arith, v.begin_in) in
    let d : b.count - 0 ≡ b.count = omega arith in λ i. record b { begin = e i; count = d i }

after-suc : (n : ℕ) (b : Buffer) → after n (after 1 b) ≡ after (suc n) b
after-suc n b =
    let e : b.begin + 1 + n ≡ b.begin + suc n = omega arith in
    let d : b.count - 1 - n ≡ b.count - suc n = omega arith in rw (mod-add-mod, e, d)

pub take_byte-ok :
    {b : Buffer} → IsValid b → 0 < b.count → take_byte b ≡ ok (get_or b.bytes b.begin 0, after 1 b)
unfolding take_byte
take_byte-ok {b} v h = rw (
  at-ok b.bytes b.begin 0 (omega arith),
  advance-ok b.begin 1 b.current_size (omega arith) (omega arith),
)

pub read_loop-ok :
    (n : ℕ) {b : Buffer}
    → IsValid b
    → n ≤ b.count
    → read_loop n b ≡ ok (take n (contents b), after n b)
unfolding read_loop
read_loop-ok zero v le = rw (after-zero v)
read_loop-ok (suc n) {b} v le = rw (
  take_byte-ok v (omega arith),
  read_loop-ok n (after-IsValid 1 v (omega arith)) (omega arith),
  take-ring b.bytes b.current_size n ((b.begin + 1) % b.current_size) (b.count - 1) (omega arith),
  take-ring b.bytes b.current_size (suc n) b.begin b.count le,
  after-suc n b,
)

copy_loop-ok :
    (n i : ℕ) {b : Buffer}
    → IsValid b
    → i < b.current_size
    → copy_loop n i b ≡ ok (ring b.bytes b.current_size i n)
unfolding copy_loop
copy_loop-ok zero i v h = refl
copy_loop-ok (suc n) i {b} v h = rw (
  at-ok b.bytes i 0 (omega arith),
  advance-ok i 1 b.current_size (omega arith) (omega arith),
  copy_loop-ok n ((i + 1) % b.current_size) v (omega arith),
)

-- The number of bytes that a request for `n` moves.
pub clip : (b : Buffer) (n : ℕ) → (if ltb b.count n then b.count else n) ≡ min n b.count
clip b n = ground arith

take_clipped : (b : Buffer) (n : ℕ) → take (min n b.count) (contents b) ≡ take n (contents b)
take_clipped b n = let e = take-min n (contents b) in rw length-contents at e

drop_clipped : (b : Buffer) (n : ℕ) → drop (min n b.count) (contents b) ≡ drop n (contents b)
drop_clipped b n = let e = drop-min n (contents b) in rw length-contents at e

-- What `read(dst, n)` returns and leaves, whatever `n` is.
pub read-ok :
    (n : ℕ) {b : Buffer} → IsValid b → read b n ≡ ok (take n (contents b), after (min n b.count) b)
unfolding read
read-ok n {b} v = rw (clip b n, read_loop-ok (min n b.count) v (omega arith), take_clipped b n)

pub copy-ok : (n : ℕ) {b : Buffer} → IsValid b → copy b n ≡ ok (take n (contents b))
unfolding copy
copy-ok n {b} v = rw (
  clip b n,
  copy_loop-ok (min n b.count) b.begin v v.begin_in,
  ← take-ring b.bytes b.current_size (min n b.count) b.begin b.count (omega arith),
  take_clipped b n,
)

pub contents-after_clipped :
    (n : ℕ) {b : Buffer} → IsValid b → contents (after (min n b.count) b) ≡ drop n (contents b)
contents-after_clipped n {b} v = contents-after (min n b.count) v (omega arith) ∙ drop_clipped b n

-- On a valid buffer `read(dst, n)` does not fault: it stores the first `min(n, size())` bytes at
-- `dst`, leaves the others in order, and keeps the invariant.
pub read_lem :
    (n : ℕ) {b : Buffer}
    → IsValid b
    → Returns
        (read b n)
        λ r. (r.0 ≡ take n (contents b)) × (contents r.1 ≡ drop n (contents b)) × IsValid r.1
read_lem n {b} v = (
  (take n (contents b), after (min n b.count) b),
  read-ok n v,
  (refl, contents-after_clipped n v, after-IsValid (min n b.count) v (omega arith)),
)

-- On a valid buffer `copy(dst, n)` stores the bytes that `read(dst, n)` would store. (It returns no
-- buffer, since it is `const`.)
pub copy-read : (n : ℕ) {b : Buffer} → IsValid b → Returns (read b n) λ r. copy b n ≡ ok r.0
copy-read n {b} v = ((take n (contents b), after (min n b.count) b), read-ok n v, copy-ok n v)

pub skip_head-ok : (n : ℕ) {b : Buffer} → IsValid b → n ≤ b.count → skip_head b n ≡ ok (after n b)
unfolding skip_head
skip_head-ok n {b} v le =
    let e : leb n b.count ≡ true = ground arith in
    rw (e, advance-ok b.begin n b.current_size (omega arith) (omega arith))

-- On a valid buffer `skipHead(n)` drops the first `n` bytes and keeps the invariant where there
-- are `n`; past the end its `assert` fails.
pub skip_head_lem :
    (n : ℕ) {b : Buffer}
    → IsValid b
    → (n ≤ b.count → Returns (skip_head b n) λ b'. (contents b' ≡ drop n (contents b)) × IsValid b')
      × (b.count < n → skip_head b n ≡ fault assertion)
unfolding skip_head
skip_head_lem n {b} v = (
  λ le. (after n b, skip_head-ok n v le, (contents-after n v le, after-IsValid n v le)),
  λ gt. let e : leb n b.count ≡ false = ground arith in rw e,
)

-- `peekChar(offset)` is the byte at that place of the contents.
pub peek_char-ok :
    (k : ℕ) {b : Buffer} → IsValid b → k < b.count → peek_char b k ≡ ok (get_or (contents b) k 0)
unfolding peek_char
peek_char-ok k {b} v h = rw (
  advance-ok b.begin k b.current_size (omega arith) (omega arith),
  at-ok b.bytes ((b.begin + k) % b.current_size) 0 (grind (arith, v.storage)),
  get_or-ring b.bytes b.current_size k b.begin b.count v.begin_in h,
)
