-- ===== src/Buffer.antt =====
-- The class `Buffer` of buffer.h: a ring of bytes that grows up to a bound. An `int` that the code
-- keeps from falling below zero is a natural number; `_end` is an integer, since `skipTail` takes
-- a remainder of what may be negative. A null-terminated or sized source is the list of its bytes.
pub mod Ring
pub mod Making
pub mod Read
pub mod Write
pub mod Faults
pub mod Queue
pub mod Peek
use yeyj_tcp_server.Base.{
  ℕ, zero, suc, ◌+◌, ◌-◌, ◌*◌, ◌/◌, ◌%◌, Bool, ◌&&◌, Option, none, some, List, [], ◌∷◌, ◌++◌, ℤ,
  pos, negsuc, sub_ℕ, ltb, leb, ◌==◌, if◌then◌else◌, length, take, replicate, Run, ok, fault,
  out_of_range, uninitialised, missing_return, endless, division_by_zero, ◌>>=◌, ◌>>◌, add_int,
  mul_int, to_int, mod_int, at, store, assert,
}

-- `grow_factor n` is the `int` that `newSize *= _growFactor` stores when `newSize` is `n`.
pub record Buffer : Type 0 where
  pub bytes : List ℕ
  pub current_size : ℕ
  pub max_size : ℕ
  pub begin : ℕ
  pub end : ℤ
  pub count : ℕ
  pub grow_factor : ℕ → ℕ

-- The default factor, 1.5, where the product is exact in `float`.
abbrev pub three_halves : ℕ → ℕ
three_halves n = n * 3 / 2

unfoldable pub new : ℕ → ℕ → (ℕ → ℕ) → Run Buffer
unfolding assert
new init_size max_size grow_factor = do
  assert (leb init_size max_size)
  ok (record {
    bytes = replicate init_size 0;
    current_size = init_size;
    max_size = max_size;
    begin = 0;
    end = pos 0;
    count = 0;
    grow_factor = grow_factor;
  })

unfoldable pub empty : Buffer → Bool
empty b = b.count == 0

unfoldable pub is_full : Buffer → Bool
is_full b = b.count == b.current_size

unfoldable pub can_grow : Buffer → Bool
can_grow b = ltb b.current_size b.max_size

unfoldable pub need_grow : Buffer → ℕ → Run Bool
unfolding add_int
need_grow b n = do total ← add_int b.count n; ok (ltb b.current_size total)

unfoldable pub get_space : Buffer → ℕ
get_space b = b.current_size - b.count

unfoldable pub get_max_space : Buffer → ℕ
get_max_space b = b.max_size - b.count

unfoldable pub clear : Buffer → Buffer
clear b = record b { begin = 0; end = pos 0; count = 0 }

-- `(i + n) % size`.
unfoldable pub advance : ℕ → ℕ → ℕ → Run ℕ
unfolding add_int mod_int
advance i n size = do sum ← add_int i n; mod_int sum size

-- One round of the loop of `read`: the byte that goes to `dst[i]`, and the buffer without it.
unfoldable pub take_byte : Buffer → Run (ℕ × Buffer)
unfolding at advance
take_byte b = do
  c ← at b.bytes b.begin
  i ← advance b.begin 1 b.current_size
  ok (c, record b { begin = i; count = b.count - 1 })

unfoldable pub read_loop : ℕ → Buffer → Run (List ℕ × Buffer)
unfolding take_byte
read_loop zero b = ok ([], b)
read_loop (suc n) b = do (c, b') ← take_byte b; (cs, b'') ← read_loop n b'; ok (c ∷ cs, b'')

-- `read(dst, n)`: what is stored at `dst`, whose length is what the call returns, and the buffer.
unfoldable pub read : Buffer → ℕ → Run (List ℕ × Buffer)
unfolding read_loop
read b n = read_loop (if ltb b.count n then b.count else n) b

-- `std::string(const char *)` stops at the first null byte.
unfoldable pub c_string : List ℕ → List ℕ
c_string [] = []
c_string (c ∷ cs) = if c == 0 then [] else c ∷ c_string cs

unfoldable pub read_as_string : Buffer → ℕ → Run (List ℕ × Buffer)
unfolding read c_string
read_as_string b length = do (cs, b') ← read b length; ok (c_string cs, b')

unfoldable pub read_all_as_string : Buffer → Run (List ℕ × Buffer)
unfolding read c_string
read_all_as_string b = do (cs, b') ← read b b.count; ok (c_string cs, b')

unfoldable pub skip_head : Buffer → ℕ → Run Buffer
unfolding assert advance
skip_head b n = do
  assert (leb n b.count)
  i ← advance b.begin n b.current_size
  ok (record b { begin = i; count = b.count - n })

-- The remainder of C++, which takes the sign of the dividend.
unfoldable pub rem_int : ℤ → ℕ → Run ℤ
rem_int z zero = fault division_by_zero
rem_int (pos a) (suc n) = ok (pos (a % suc n))
rem_int (negsuc a) (suc n) =
    ok (if (a + 1) % suc n == 0 then pos 0 else negsuc ((a + 1) % suc n - 1))

-- `_end - n`.
unfoldable pub end_less : ℤ → ℕ → ℤ
end_less (pos e) n = sub_ℕ e n
end_less (negsuc e) n = negsuc (e + n)

unfoldable pub skip_tail : Buffer → ℕ → Run Buffer
unfolding assert
skip_tail b n = do
  assert (leb n b.count)
  e ← rem_int (end_less b.end n) b.current_size
  ok (record b { end = e; count = b.count - n })

-- `copy(dst, n)` walks with an index of its own.
unfoldable pub copy_loop : ℕ → ℕ → Buffer → Run (List ℕ)
unfolding at advance
copy_loop zero begin b = ok []
copy_loop (suc n) begin b = do
  c ← at b.bytes begin
  i ← advance begin 1 b.current_size
  cs ← copy_loop n i b
  ok (c ∷ cs)

unfoldable pub copy : Buffer → ℕ → Run (List ℕ)
unfolding copy_loop
copy b n = copy_loop (if ltb b.count n then b.count else n) b.begin b

-- `(_end + 1) % _currentSize`.
unfoldable pub next_end : ℤ → ℕ → Run ℤ
unfolding advance rem_int
next_end (pos e) size = do i ← advance e 1 size; ok (pos i)
next_end (negsuc e) size = rem_int (sub_ℕ 1 (suc e)) size

-- Also one round of the loop of `write`, which has the same three statements.
unfoldable pub put_char : Buffer → ℕ → Run Buffer
put_char b c = do
  bytes ← store b.bytes b.end c
  e ← next_end b.end b.current_size
  n ← add_int b.count 1
  ok (record b { bytes = bytes; end = e; count = n })

-- `getChar` ends without its `return`: its caller has no byte to go on with.
unfoldable pub get_char : Buffer → Run (ℕ × Buffer)
unfolding take_byte
get_char b = do (c, b') ← take_byte b; fault missing_return

-- The loop of `grow`, with the rounds that it may make.
unfoldable pub grow_size : ℕ → (ℕ → ℕ) → ℕ → ℕ → Run ℕ
unfolding to_int
grow_size zero factor new_size capacity = fault endless
grow_size (suc rounds) factor new_size capacity =
    let rest = (do next ← to_int (factor new_size); grow_size rounds factor next capacity) in
    if ltb new_size capacity then rest else ok new_size

-- `read(temp, count)` into an array of `size` zeros.
unfoldable pub fill : List ℕ → ℕ → Run (List ℕ)
fill cs size =
    if leb (length cs) size then ok (cs ++ replicate (size - length cs) 0) else fault out_of_range

unfoldable pub grow : Buffer → ℕ → Run Buffer
grow b capacity = do
  size ← grow_size (capacity + 1) b.grow_factor b.current_size capacity
  let new_size = if ltb b.max_size size then b.max_size else size
  (cs, b') ← read b b.count
  temp ← fill cs new_size
  ok (record b' {
    bytes = temp;
    count = b.count;
    begin = 0;
    end = pos b.count;
    current_size = new_size;
  })

unfoldable pub write_loop : List ℕ → Buffer → Run Buffer
unfolding put_char
write_loop [] b = ok b
write_loop (c ∷ cs) b = do b' ← put_char b c; write_loop cs b'

-- `if(needGrow(n) && canGrow()) grow(_count + n);`
unfoldable pub make_room : Buffer → ℕ → Run Buffer
make_room b n = do
  needed ← need_grow b n
  if needed && can_grow b then (do total ← add_int b.count n; grow b total) else ok b

-- `write(src, n)` for the `n` bytes of `src`, with the number of bytes that it returns.
unfoldable pub write : Buffer → List ℕ → Run (ℕ × Buffer)
unfolding get_space
write b src = do
  b' ← make_room b (length src)
  let room = get_space b'
  let n = if ltb room (length src) then room else length src
  b'' ← write_loop (take n src) b'
  ok (n, b'')

unfoldable pub peek_char : Buffer → ℕ → Run ℕ
unfolding at advance
peek_char b offset = do i ← advance b.begin offset b.current_size; at b.bytes i

-- `isdigit`.
unfoldable pub is_digit : ℕ → Bool
is_digit c = leb b'0' c && leb c b'9'

-- The loop of `peekIntWithLength`: at most `left` bytes from `offset` on, the number so far, and
-- `currentChar`, which has no value before the first round.
unfoldable pub peek_loop : ℕ → Buffer → ℕ → ℕ → Option ℕ → Run (ℕ × ℕ × Option ℕ)
peek_loop zero b offset res current = ok (res, offset, current)
peek_loop (suc left) b offset res current = do
  c ← peek_char b offset
  let rest = do
    tens ← mul_int res 10
    next ← add_int tens (c - b'0')
    peek_loop left b (offset + 1) next (some c)
  if is_digit c then rest else ok (res, offset, some c)

-- The test after the loop.
unfoldable pub is_delimiter : Option ℕ → ℕ → Run Bool
is_delimiter none delimiter = fault uninitialised
is_delimiter (some c) delimiter = ok (c == delimiter)

-- Whether a number and the delimiter stand at the front, `*res` and `*length`.
unfoldable pub peek_int_with_length : Buffer → ℕ → Run (Bool × ℕ × ℕ)
unfolding is_delimiter
peek_int_with_length b delimiter = do
  (res, offset, current) ← peek_loop b.count b 0 0 none
  found ← is_delimiter current delimiter
  ok (found, res, offset)

unfoldable pub peek_int_without_length : Buffer → ℕ → Run (Bool × ℕ)
unfolding is_delimiter
peek_int_without_length b delimiter = do
  (res, offset, current) ← peek_loop b.count b 0 0 none
  found ← is_delimiter current delimiter
  ok (found, res)
