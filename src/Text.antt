-- ===== src/Text.antt =====
-- The strings of utilities.cpp: `ltrim`, `rtrim`, `trim`, `split`, and `format` at the one format
-- string by which messages are framed. A string is the list of its bytes.
pub mod Decimal
pub mod Split
pub mod Trim
use yeyj_tcp_server.Base.{
  ℕ, zero, suc, ◌+◌, ◌-◌, ◌/◌, ◌%◌, Bool, true, false, ◌&&◌, ◌||◌, List, [], ◌∷◌, ◌++◌, ◌==◌, leb,
  if◌then◌else◌, length, get_or, take, drop, Option, none, some, Run, ok, fault, endless, ◌>>=◌,
}
use yeyj_tcp_server.Buffer.{c_string}

-- `isspace`: the blank, and the five control characters from tab to carriage return.
unfoldable pub is_space : ℕ → Bool
is_space c = c == 32 || (leb 9 c && leb c 13)

-- `while (iter != s.end() && isspace(*iter++));`, with `iter` as an index.
unfoldable pub ltrim_loop : List ℕ → ℕ → ℕ
unfolding is_space
ltrim_loop [] i = i
ltrim_loop (c ∷ cs) i = if is_space c then ltrim_loop cs (i + 1) else i + 1

-- `s.erase(s.begin(), --iter)`.
unfoldable pub ltrim : List ℕ → List ℕ
unfolding ltrim_loop
ltrim [] = []
ltrim (c ∷ cs) = drop (ltrim_loop (c ∷ cs) 0 - 1) (c ∷ cs)

-- `while (iter != s.begin() && isspace(*--iter));`.
unfoldable pub rtrim_loop : List ℕ → ℕ → ℕ
unfolding is_space
rtrim_loop s zero = 0
rtrim_loop s (suc i) = let rest = rtrim_loop s i in if is_space (get_or s i 0) then rest else i

-- `s.erase(++iter, s.end())`.
unfoldable pub rtrim : List ℕ → List ℕ
unfolding rtrim_loop
rtrim [] = []
rtrim (c ∷ cs) = take (rtrim_loop (c ∷ cs) (length (c ∷ cs)) + 1) (c ∷ cs)

unfoldable pub trim : List ℕ → List ℕ
unfolding ltrim rtrim
trim s = rtrim (ltrim s)

-- Whether `strsep` takes a byte for a delimiter.
unfoldable pub is_delim : List ℕ → ℕ → Bool
is_delim [] c = false
is_delim (d ∷ ds) c = c == d || is_delim ds c

-- `strsep(&str, d)` where `str` is not null: the token, and `str` afterwards, `none` for null.
unfoldable pub strsep : List ℕ → List ℕ → List ℕ × Option (List ℕ)
unfolding is_delim
strsep ds [] = ([], none)
strsep ds (c ∷ cs) =
    if is_delim ds c then ([], some cs) else ((c ∷ (strsep ds cs).0), (strsep ds cs).1)

-- `while (char *t = strsep(&str, d.c_str())) v.push_back(t);`, with the rounds that it may make.
unfoldable pub split_loop : ℕ → List ℕ → Option (List ℕ) → Run (List (List ℕ))
split_loop rounds ds none = ok []
split_loop zero ds (some str) = fault endless
split_loop (suc rounds) ds (some str) = do
  v ← split_loop rounds ds (strsep ds str).1
  ok ((strsep ds str).0 ∷ v)

-- `split`: each round but the last takes a delimiter away, so `length s + 1` rounds are enough.
unfoldable pub split : List ℕ → List ℕ → Run (List (List ℕ))
split s d = split_loop (length s + 1) (c_string d) (some (c_string s))

-- `%d` of a number that is not negative: the digits of `n` before `out`. Each round takes one
-- digit off, so `n + 1` rounds are enough.
unfoldable pub digits_loop : ℕ → ℕ → List ℕ → List ℕ
digits_loop zero n out = out
digits_loop (suc rounds) n out =
    let rest = digits_loop rounds (n / 10) ((b'0' + n % 10) ∷ out) in
    if n / 10 == 0 then (b'0' + n % 10) ∷ out else rest

unfoldable pub decimal : ℕ → List ℕ
unfolding digits_loop
decimal n = digits_loop (n + 1) n []

-- `format("%d %s", size, str)`: `%s` and the `std::string` that is returned stop at a null byte.
unfoldable pub format_message : ℕ → List ℕ → List ℕ
unfolding decimal c_string
format_message size str = c_string (decimal size ++ b' ' ∷ c_string str)
