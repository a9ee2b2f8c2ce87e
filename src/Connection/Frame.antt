-- ===== src/Connection/Frame.antt =====
-- Messages: `sendMessage` frames a string by its length, and `receiveMessageAsString` undoes it.
use mathlib.Core.Path.{ap₂}
use native.Mathlib.Decide.{dec_le}
use yeyj_tcp_server.Base.{
  ℕ, suc, ◌+◌, ◌-◌, ◌≤◌, ◌<◌, ◌≡◌, refl, sym, ap, ◌∙◌, arith, true, false, leb, List, [], ◌∷◌, ◌++◌,
  append_assoc, ok, fault, overflow, int_max, length, length-append, take, drop, take-all,
  take-append, drop-append, drop-drop, add_int, add_int-ok, min,
}
use yeyj_tcp_server.Buffer.Peek.{value, AllDigits, peek_number, peek_overflows}
use yeyj_tcp_server.Buffer.Read.{
  read-ok, skip_head-ok, after, after-IsValid, contents-after, contents-after_clipped,
}
use yeyj_tcp_server.Buffer.Ring.{contents, IsValid, max_bytes, length-contents, ring}
use yeyj_tcp_server.Buffer.Write.{Grows, Extends, write_lem}
use yeyj_tcp_server.Buffer.{Buffer, c_string, is_digit, read_as_string, peek_int_with_length}
use yeyj_tcp_server.Connection.{
  Connection, send_message_sized, send_message, receive_message_as_string,
}
use yeyj_tcp_server.Text.Decimal.{
  IsText, c_string_whole, format_message_lem, decimal-AllDigits, value-decimal,
}
use yeyj_tcp_server.Text.{decimal, format_message}

-- `c` with another write buffer, or another read buffer.
abbrev pub with_write : Connection → Buffer → Connection
with_write c w = record c { write_buffer = w }

abbrev pub with_read : Connection → Buffer → Connection
with_read c r = record c { read_buffer = r }

-- `sendMessage(str, size)` on a valid write buffer whose factor grows, within 1 GiB: it does not
-- fault, and appends the frame (the number in decimal, a blank, the string up to its first null
-- byte) to what is to be sent, cut where the buffer's largest size is reached. Nothing else of the
-- connection changes.
pub send_message_sized_lem :
    (str : List ℕ) (size : ℕ) (c : Connection)
    → IsValid c.write_buffer
    → Grows c.write_buffer.grow_factor
    → c.write_buffer.count + length (format_message size str) ≤ max_bytes
    → (w : Buffer) × (send_message_sized c str size ≡ ok (with_write c w))
      × Extends c.write_buffer
          (take
            (c.write_buffer.max_size - c.write_buffer.count)
            (decimal size ++ b' ' ∷ c_string str))
          w
unfolding send_message_sized
send_message_sized_lem str size c v g small =
    let (r, run, (n, x)) = write_lem (format_message size str) v g small in
    (r.1, rw run, rw (format_message_lem size str) at x)

-- A read buffer that begins with the digits `ds` and a blank, and goes on with `body`.
module _ (c : Connection) (ds body : List ℕ) (v : IsValid c.read_buffer) (digits : AllDigits ds)
    (e : contents c.read_buffer ≡ ds ++ b' ' ∷ body) where
  abbrev b : Buffer
  b = c.read_buffer

  framed_count : b.count ≡ length ds + suc (length body)
  framed_count = sym (length-contents b) ∙ (ap length e ∙ length-append ds (b' ' ∷ body))

  framed_after : contents (after (length ds + 1) b) ≡ body
  framed_after =
      contents-after (length ds + 1) v (omega (arith, framed_count))
      ∙ (ap (λ s. drop (length ds + 1) s) e
          ∙ (sym (drop-drop 1 (length ds) (ds ++ b' ' ∷ body))
              ∙ ap (λ s. drop 1 s) (drop-append ds (b' ' ∷ body) (length ds) refl)))

  framed_read :
      (size : ℕ)
      → (r : Buffer) × (read_as_string (after (length ds + 1) b) size
          ≡ ok (c_string (take size body), r))
        × (contents r ≡ drop size body)
        × IsValid r
  unfolding read_as_string
  framed_read size =
      let b' = after (length ds + 1) b in
      let v' = after-IsValid (length ds + 1) v (omega (arith, framed_count)) in
      (
        after (min size b'.count) b',
        rw (read-ok size v', framed_after),
        contents-after_clipped size v' ∙ ap (λ s. drop size s) framed_after,
        after-IsValid (min size b'.count) v' (omega arith),
      )

  peek_framed :
      value 0 ds ≤ int_max → peek_int_with_length b b' ' ≡ ok (true, value 0 ds, length ds)
  unfolding is_digit
  peek_framed small = peek_number v b' ' ds b' ' body e digits refl small

  -- The whole of the message has arrived.
  pub receive_whole :
      value 0 ds ≤ length body
      → (r : Buffer) × (receive_message_as_string c
          ≡ ok (c_string (take (value 0 ds) body), with_read c r))
        × (contents r ≡ drop (value 0 ds) body)
        × IsValid r
  unfolding receive_message_as_string
  receive_whole all =
      let (r, run, rest, valid) = framed_read (value 0 ds) in
      let enough : leb (length ds + 1 + value 0 ds) b.count ≡ true = ground (arith, framed_count) in
      (
        r,
        rw (
          peek_framed (omega (arith, framed_count)),
          add_int-ok (length ds) 1 (omega (arith, framed_count)),
          add_int-ok (length ds + 1) (value 0 ds) (omega (arith, framed_count)),
          enough,
          skip_head-ok (length ds + 1) v (omega (arith, framed_count)),
          run,
        ),
        rest,
        valid,
      )

  -- A part of it has not.
  pub receive_part :
      length body < value 0 ds
      → length ds + 1 + value 0 ds ≤ int_max
      → receive_message_as_string c ≡ ok ([], c)
  unfolding receive_message_as_string
  receive_part part small =
      let short : leb (length ds + 1 + value 0 ds) b.count ≡ false = ground (arith, framed_count) in
      rw (
        peek_framed (omega arith),
        add_int-ok (length ds) 1 (omega arith),
        add_int-ok (length ds + 1) (value 0 ds) small,
        short,
      )

  -- The sum that is compared with `size()` is past the range of `int`.
  receive_large :
      value 0 ds ≤ int_max
      → int_max < length ds + 1 + value 0 ds
      → receive_message_as_string c ≡ fault overflow
  unfolding receive_message_as_string add_int
  receive_large small large =
      let over : leb (length ds + 1 + value 0 ds) int_max ≡ false = ground arith in
      rw (peek_framed small, add_int-ok (length ds) 1 (omega (arith, framed_count)), over)

  receive_huge : int_max < value 0 ds → receive_message_as_string c ≡ fault overflow
  unfolding receive_message_as_string
  receive_huge large = rw (peek_overflows v b' ' ds (b' ' ∷ body) e digits large)

  -- If the read buffer of a valid connection begins with digits and a blank, and the number `n` of
  -- `d` digits is such that `d + 1 + n` is above the range of `int`, then
  -- `receiveMessageAsString` overflows. The peer decides on these bytes.
  pub receive_overflows :
      int_max < length ds + 1 + value 0 ds → receive_message_as_string c ≡ fault overflow
  receive_overflows large = elim (dec_le (value 0 ds) int_max) [
    | yes small ↦ receive_large small large
    | no huge ↦ receive_huge (omega arith)
  ]

-- If the read buffer of a valid connection holds the frame of `sendMessage(str, size)` and then
-- `rest`, and `size` is at most the bytes behind the blank, `receiveMessageAsString` gives the
-- first `size` of those bytes (up to a null byte), and leaves the others.
pub receive-send_sized :
    (size : ℕ) (str rest : List ℕ) (c : Connection)
    → IsValid c.read_buffer
    → contents c.read_buffer ≡ format_message size str ++ rest
    → size ≤ length (c_string str ++ rest)
    → (r : Buffer) × (receive_message_as_string c
        ≡ ok (c_string (take size (c_string str ++ rest)), with_read c r))
      × (contents r ≡ drop size (c_string str ++ rest))
      × IsValid r
receive-send_sized size str rest c v e all =
    let framed : contents c.read_buffer ≡ decimal size ++ b' ' ∷ (c_string str ++ rest) =
      e
      ∙ (ap (λ s. s ++ rest) (format_message_lem size str)
          ∙ append_assoc (decimal size) (b' ' ∷ c_string str) rest) in
    let number = value-decimal size in
    let got =
      receive_whole c (decimal size) (c_string str ++ rest) v (decimal-AllDigits size) framed
        (omega (arith, number)) in
    rw number at got

-- What an empty write buffer that is large enough holds after `sendMessage`.
send_fresh :
    (str : List ℕ) (c c' : Connection)
    → IsValid c.write_buffer
    → Grows c.write_buffer.grow_factor
    → c.write_buffer.count ≡ 0
    → length (format_message (length str) str) ≤ c.write_buffer.max_size
    → send_message c str ≡ ok c'
    → contents c'.write_buffer ≡ format_message (length str) str
unfolding send_message
send_fresh str c c' v g none_left fits sent =
    let (w, run, x) = send_message_sized_lem str (length str) c v g (omega arith) in
    let same : c' ≡ with_write c w = cc in
    let b = c.write_buffer in
    let nothing : contents b ≡ [] = ap (λ n. ring b.bytes b.current_size b.begin n) none_left in
    let frame = format_message_lem (length str) str in
    let cut =
      take-all (b.max_size - b.count) (decimal (length str) ++ b' ' ∷ c_string str)
        (rw (← frame) (omega arith)) in
    ap (λ d. contents d.write_buffer) same ∙ (x.bytes ∙ (ap₂ ◌++◌ nothing cut ∙ sym frame))

-- The round trip. If `str` has no null byte, the sender's write buffer is valid, empty and large
-- enough for the frame, and what it then holds arrives at the front of the receiver's valid read
-- buffer, `receiveMessageAsString` gives `str` and leaves exactly what followed the frame.
pub receive-send :
    (str rest : List ℕ) (c c' d : Connection)
    → IsText str
    → IsValid c.write_buffer
    → Grows c.write_buffer.grow_factor
    → c.write_buffer.count ≡ 0
    → length (format_message (length str) str) ≤ c.write_buffer.max_size
    → send_message c str ≡ ok c'
    → IsValid d.read_buffer
    → contents d.read_buffer ≡ contents c'.write_buffer ++ rest
    → (r : Buffer) × (receive_message_as_string d ≡ ok (str, with_read d r))
      × (contents r ≡ rest)
      × IsValid r
unfolding send_message
receive-send str rest c c' d text v g none_left fits sent v' e =
    let sends = send_fresh str c c' v g none_left fits sent in
    let whole = c_string_whole str text in
    let got =
      receive-send_sized (length str) str rest d v' (e ∙ ap (λ s. s ++ rest) sends)
        (rw (whole, length-append) (omega arith)) in
    rw
      (whole, take-append str rest (length str) refl, drop-append str rest (length str) refl, whole)
      at got
