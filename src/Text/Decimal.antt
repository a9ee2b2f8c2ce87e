-- ===== src/Text/Decimal.antt =====
-- The digits that `%d` prints, read back.
use yeyj_tcp_server.Base.{
  ℕ, zero, suc, ◌+◌, ◌-◌, ◌*◌, ◌/◌, ◌%◌, ◌<◌, ◌≡◌, ◌≢◌, refl, ◌∙◌, ap, arith, true, false, List, [],
  ◌∷◌, ◌++◌, ◌==◌, Bool-cases, inl, inr,
}
use yeyj_tcp_server.Buffer.Peek.{AllDigits, value}
use yeyj_tcp_server.Buffer.{is_digit, c_string}
use yeyj_tcp_server.Text.{digits_loop, decimal, format_message}

digit-is_digit : (n : ℕ) → is_digit (b'0' + n % 10) ≡ true
unfolding is_digit
digit-is_digit n = ground arith

digits_loop-AllDigits :
    (rounds n : ℕ) (out : List ℕ) → AllDigits out → AllDigits (digits_loop rounds n out)
unfolding digits_loop
digits_loop-AllDigits zero n out h = h
digits_loop-AllDigits (suc rounds) n out h = elim (Bool-cases (n / 10 == 0)) [
  | inl last ↦ rw last (digit-is_digit n, h)
  | inr more ↦ rw more (digits_loop-AllDigits rounds (n / 10) _ (digit-is_digit n, h))
]

-- Read back, the digits give the number and go on with what follows them.
value-digits_loop :
    (rounds n : ℕ) (out : List ℕ) → n < rounds → value 0 (digits_loop rounds n out) ≡ value n out
unfolding digits_loop
value-digits_loop zero n out h = absurd (omega arith)
value-digits_loop (suc rounds) n out h = elim (Bool-cases (n / 10 == 0)) [
  | inl last ↦
      let e : 0 * 10 + (b'0' + n % 10 - b'0') ≡ n = ground arith in
      rw last (ap (λ k. value k out) e)
  | inr more ↦
      let e : n / 10 * 10 + (b'0' + n % 10 - b'0') ≡ n = omega arith in
      rw (more, value-digits_loop rounds (n / 10) ((b'0' + n % 10) ∷ out) (ground arith), e)
]

pub decimal-AllDigits : (n : ℕ) → AllDigits (decimal n)
unfolding decimal
decimal-AllDigits n = digits_loop-AllDigits (n + 1) n [] tt

pub value-decimal : (n : ℕ) → value 0 (decimal n) ≡ n
unfolding decimal
value-decimal n = value-digits_loop (n + 1) n [] (omega arith)

-- A string without null bytes.
abbrev pub IsText : List ℕ → Type 0
IsText [] = Unit {0}
IsText (c ∷ cs) = (c ≢ 0) × IsText cs

pub c_string_whole : (s : List ℕ) → IsText s → c_string s ≡ s
unfolding c_string
c_string_whole [] h = refl
c_string_whole (c ∷ cs) h =
    let e : (c == 0) ≡ false = ground (arith, h.0) in rw (e, c_string_whole cs h.1)

pub c_string_append : (s r : List ℕ) → IsText s → c_string (s ++ r) ≡ s ++ c_string r
unfolding c_string
c_string_append [] r h = refl
c_string_append (c ∷ cs) r h =
    let e : (c == 0) ≡ false = ground (arith, h.0) in rw (e, c_string_append cs r h.1)

c_string-IsText : (s : List ℕ) → IsText (c_string s)
unfolding c_string
c_string-IsText [] = tt
c_string-IsText (c ∷ cs) = elim (Bool-cases (c == 0)) [
  | inl null ↦ rw null tt
  | inr other ↦ rw other (ground arith, c_string-IsText cs)
]

pub AllDigits-IsText : (s : List ℕ) → AllDigits s → IsText s
unfolding is_digit
AllDigits-IsText [] h = tt
AllDigits-IsText (c ∷ cs) h = (ground (arith, h.0), AllDigits-IsText cs h.1)

-- A message's frame is the number in decimal, a blank, and the message up to its first null byte.
pub format_message_lem :
    (size : ℕ) (str : List ℕ) → format_message size str ≡ decimal size ++ b' ' ∷ c_string str
unfolding format_message
format_message_lem size str =
    c_string_append (decimal size) (b' ' ∷ c_string str)
      (AllDigits-IsText (decimal size) (decimal-AllDigits size))
    ∙ ap (λ s. decimal size ++ s)
        (c_string_whole (b' ' ∷ c_string str) (omega arith, c_string-IsText str))
