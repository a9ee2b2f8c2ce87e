-- ===== src/Buffer/Peek.antt =====
-- `peekIntWithLength`: the decimal number at the front of a buffer.
use native.Mathlib.Decide.{dec_le}
use yeyj_tcp_server.Base.{
  Bool, Run-cases, Run, ℕ, zero, suc, ◌+◌, ◌-◌, ◌*◌, ◌≤◌, ◌<◌, ◌≡◌, sym, ap, ◌∙◌, arith, true,
  false, Option, none, some, List, [], ◌∷◌, ◌++◌, ◌==◌, leb, ok, fault, overflow, uninitialised,
  int_max, get_or, drop, length, length-append, add_int-ok, mul_int-ok, mul_int, add_int,
  Bool-cases, inl, inr,
}
use yeyj_tcp_server.Buffer.Read.{peek_char-ok}
use yeyj_tcp_server.Buffer.Ring.{contents, IsValid, length-contents}
use yeyj_tcp_server.Buffer.{
  peek_int_without_length, Buffer, is_digit, peek_loop, peek_int_with_length,
}

abbrev pub AllDigits : List ℕ → Type 0
AllDigits [] = Unit {0}
AllDigits (c ∷ cs) = (is_digit c ≡ true) × AllDigits cs

-- The number that decimal digits stand for, behind those that give `n`.
abbrev pub value : ℕ → List ℕ → ℕ
value n [] = n
value n (c ∷ cs) = value (n * 10 + (c - b'0')) cs

pub le-value : (n : ℕ) (cs : List ℕ) → n ≤ value n cs
le-value n [] = omega arith
le-value n (c ∷ cs) = omega (arith, le-value (n * 10 + (c - b'0')) cs)

-- What a list says of its places once its front is known.
record Front (xs : List ℕ) (i c : ℕ) (cs : List ℕ) : Type 0 where
  inside : i < length xs
  here : get_or xs i 0 ≡ c
  rest : drop (suc i) xs ≡ cs

Front-drop : (xs : List ℕ) (i c : ℕ) (cs : List ℕ) → drop i xs ≡ c ∷ cs → Front xs i c cs
Front-drop [] zero c cs e = cc
Front-drop [] (suc i) c cs e = cc
Front-drop (x ∷ xs) zero c cs e = record { inside = omega arith; here = cc; rest = cc }
Front-drop (x ∷ xs) (suc i) c cs e =
    let f = Front-drop xs i c cs e in
    record { inside = omega (arith, f.inside); here = f.here; rest = f.rest }

digit_ne : (c d : ℕ) → is_digit c ≡ true → is_digit d ≡ false → (c == d) ≡ false
digit_ne c d h k = ground arith

module _ {b : Buffer} (v : IsValid b) where
  -- One round on a digit, where the number does not overflow.
  digit_round :
      (left i n c : ℕ) (cs : List ℕ) (current : Option ℕ)
      → drop i (contents b) ≡ c ∷ cs
      → is_digit c ≡ true
      → n * 10 + (c - b'0') ≤ int_max
      → peek_loop (suc left) b i n current ≡ peek_loop left b (i + 1) (n * 10 + (c - b'0')) (some c)
  unfolding peek_loop
  digit_round left i n c cs current e digit small =
      let f = Front-drop (contents b) i c cs e in
      let inside : i < b.count = omega (arith, f.inside, length-contents b) in
      rw (
        peek_char-ok i v inside,
        f.here,
        digit,
        mul_int-ok n 10 (omega arith),
        add_int-ok (n * 10) (c - b'0') small,
      )

  -- The loop over digits that a byte which is no digit ends.
  loop-stops :
      (ds : List ℕ) (left i n c : ℕ) (cs : List ℕ) (current : Option ℕ)
      → drop i (contents b) ≡ ds ++ c ∷ cs
      → length ds < left
      → AllDigits ds
      → is_digit c ≡ false
      → value n ds ≤ int_max
      → peek_loop left b i n current ≡ ok (value n ds, i + length ds, some c)
  unfolding peek_loop
  loop-stops ds zero i n c cs current e enough digits stop small = absurd (omega arith)
  loop-stops [] (suc left) i n c cs current e enough digits stop small =
      let f = Front-drop (contents b) i c cs e in
      let inside : i < b.count = omega (arith, f.inside, length-contents b) in
      let same : i + 0 ≡ i = omega arith in rw (peek_char-ok i v inside, f.here, stop, same)
  loop-stops (d ∷ ds) (suc left) i n c cs current e enough digits stop small =
      let f = Front-drop (contents b) i d (ds ++ c ∷ cs) e in
      let step =
        digit_round left i n d (ds ++ c ∷ cs) current e digits.0
          (omega (arith, le-value (n * 10 + (d - b'0')) ds)) in
      let next : i + 1 ≡ suc i = omega arith in
      let total : suc i + length ds ≡ i + suc (length ds) = omega arith in
      step
      ∙ rw (
        next,
        loop-stops ds left (suc i) (n * 10 + (d - b'0')) c cs (some d) f.rest (omega arith) digits.1
            stop small,
        total,
      )

  -- The loop over bytes that are all digits ends with the last of them as `currentChar`.
  loop-digits :
      (ds : List ℕ) (i n l : ℕ)
      → drop i (contents b) ≡ ds
      → AllDigits ds
      → value n ds ≤ int_max
      → is_digit l ≡ true
      → (c : ℕ) × (is_digit c ≡ true)
        × (peek_loop (length ds) b i n (some l) ≡ ok (value n ds, i + length ds, some c))
  unfolding peek_loop
  loop-digits [] i n l e digits small last =
      let same : i + 0 ≡ i = omega arith in (l, last, rw same)
  loop-digits (d ∷ ds) i n l e digits small last =
      let f = Front-drop (contents b) i d ds e in
      let step =
        digit_round (length ds) i n d ds (some l) e digits.0
          (omega (arith, le-value (n * 10 + (d - b'0')) ds)) in
      let next : i + 1 ≡ suc i = omega arith in
      let (c, digit, run) =
        loop-digits ds (suc i) (n * 10 + (d - b'0')) d f.rest digits.1 small digits.0 in
      let total : suc i + length ds ≡ i + suc (length ds) = omega arith in
      (c, digit, step ∙ rw (next, run, total))

  -- The round whose digit takes the number past the range of `int`.
  last_round :
      (left i n c : ℕ) (cs : List ℕ) (current : Option ℕ)
      → drop i (contents b) ≡ c ∷ cs
      → is_digit c ≡ true
      → int_max < n * 10 + (c - b'0')
      → peek_loop (suc left) b i n current ≡ fault overflow
  unfolding peek_loop add_int mul_int
  last_round left i n c cs current e digit large =
      let f = Front-drop (contents b) i c cs e in
      let inside : i < b.count = omega (arith, f.inside, length-contents b) in
      rw (peek_char-ok i v inside, f.here, digit)
        (elim (Bool-cases (leb (n * 10) int_max)) [
          | inr over ↦ rw over
          | inl fits ↦
              let over : leb (n * 10 + (c - b'0')) int_max ≡ false = ground arith in
              rw (mul_int-ok n 10 (ground arith), over)
        ])

  loop-overflows :
      (ds : List ℕ) (left i n : ℕ) (cs : List ℕ) (current : Option ℕ)
      → drop i (contents b) ≡ ds ++ cs
      → length ds ≤ left
      → AllDigits ds
      → n ≤ int_max
      → int_max < value n ds
      → peek_loop left b i n current ≡ fault overflow
  loop-overflows [] left i n cs current e enough digits small large = absurd (omega arith)
  loop-overflows (d ∷ ds) zero i n cs current e enough digits small large = absurd (omega arith)
  loop-overflows (d ∷ ds) (suc left) i n cs current e enough digits small large =
      let f = Front-drop (contents b) i d (ds ++ cs) e in
      let next : i + 1 ≡ suc i = omega arith in
      let n' = n * 10 + (d - b'0') in
      elim (dec_le n' int_max) [
        | yes le ↦
            digit_round left i n d (ds ++ cs) current e digits.0 le
            ∙ rw next (
                loop-overflows ds left (suc i) n' cs (some d) f.rest (omega arith) digits.1 le
                  large)
        | no gt ↦ last_round left i n d (ds ++ cs) current e digits.0 (omega arith)
      ]

  -- If the contents of a valid buffer begin with digits (or none) whose number is in the range of
  -- `int` and then have a byte that is no digit, `peekIntWithLength` gives that number and how many
  -- digits there are, and succeeds exactly if that byte is the delimiter.
  pub peek_number :
      (delimiter : ℕ) (ds : List ℕ) (c : ℕ) (cs : List ℕ)
      → contents b ≡ ds ++ c ∷ cs
      → AllDigits ds
      → is_digit c ≡ false
      → value 0 ds ≤ int_max
      → peek_int_with_length b delimiter ≡ ok (c == delimiter, value 0 ds, length ds)
  unfolding peek_int_with_length
  peek_number delimiter ds c cs e digits stop small =
      let size : b.count ≡ length ds + suc (length cs) =
        sym (length-contents b) ∙ (ap length e ∙ length-append ds (c ∷ cs)) in
      let total : 0 + length ds ≡ length ds = omega arith in
      rw (loop-stops ds b.count 0 0 c cs none e (omega arith) digits stop small, total)

  -- If the contents of a valid buffer are one digit or more and nothing else, with a number in the
  -- range of `int`, and the delimiter is no digit, `peekIntWithLength` reports failure.
  pub peek_unfinished :
      (delimiter d : ℕ) (ds : List ℕ)
      → contents b ≡ d ∷ ds
      → AllDigits (d ∷ ds)
      → is_digit delimiter ≡ false
      → value 0 (d ∷ ds) ≤ int_max
      → peek_int_with_length b delimiter ≡ ok (false, value 0 (d ∷ ds), length (d ∷ ds))
  unfolding peek_int_with_length
  peek_unfinished delimiter d ds e digits other small =
      let size : b.count ≡ suc (length ds) = sym (length-contents b) ∙ ap length e in
      let f = Front-drop (contents b) 0 d ds e in
      let step =
        digit_round (length ds) 0 0 d ds none e digits.0
          (omega (arith, le-value (0 * 10 + (d - b'0')) ds)) in
      let (c, digit, run) =
        loop-digits ds 1 (0 * 10 + (d - b'0')) d f.rest digits.1 small digits.0 in
      let differs : (c == delimiter) ≡ false = digit_ne c delimiter digit other in
      let total : 1 + length ds ≡ suc (length ds) = omega arith in
      rw (ap (λ k. peek_loop k b 0 0 none) size ∙ (step ∙ run), differs, total)

  -- On an empty buffer `peekIntWithLength` reads `currentChar` before it has a value.
  pub peek_empty :
      (delimiter : ℕ) → contents b ≡ [] → peek_int_with_length b delimiter ≡ fault uninitialised
  unfolding peek_int_with_length peek_loop
  peek_empty delimiter e = let size : b.count ≡ 0 = sym (length-contents b) ∙ ap length e in rw size

  -- Where the digits at the front of a valid buffer stand for a number above the range of `int`,
  -- `peekIntWithLength` overflows, whatever follows them.
  pub peek_overflows :
      (delimiter : ℕ) (ds cs : List ℕ)
      → contents b ≡ ds ++ cs
      → AllDigits ds
      → int_max < value 0 ds
      → peek_int_with_length b delimiter ≡ fault overflow
  unfolding peek_int_with_length
  peek_overflows delimiter ds cs e digits large =
      let size : b.count ≡ length ds + length cs =
        sym (length-contents b) ∙ (ap length e ∙ length-append ds cs) in
      rw (loop-overflows ds b.count 0 0 cs none e (omega arith) digits (omega arith) large)

abbrev pub without_length : Run (Bool × ℕ × ℕ) → Run (Bool × ℕ)
without_length (ok (found, res, length)) = ok (found, res)
without_length (fault e) = fault e

-- `peekIntWithoutLength` is `peekIntWithLength` less the length, on every buffer.
pub peek_without_length :
    (b : Buffer) (delimiter : ℕ)
    → peek_int_without_length b delimiter ≡ without_length (peek_int_with_length b delimiter)
unfolding peek_int_without_length peek_int_with_length
peek_without_length b delimiter = elim (Run-cases (peek_loop b.count b 0 0 none)) [
  | inr (e, failed) ↦ rw failed
  | inl ((n, i, none), done) ↦ rw done
  | inl ((n, i, some c), done) ↦ rw done
]
