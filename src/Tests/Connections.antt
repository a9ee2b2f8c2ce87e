-- ===== src/Tests/Connections.antt =====
-- The theorems on `TcpConnection` and on the text functions at concrete inputs.
use yeyj_tcp_server.Base.{
  ℕ, zero, suc, ◌≤◌, ◌<◌, ◌≡◌, refl, arith, true, false, List, [], ◌∷◌, ◌++◌, pos, Option, none,
  some, ok, fault, overflow, empty_function, Returns, length, take, drop, length-take, replicate,
  store,
}
use yeyj_tcp_server.Buffer.Faults.{three_halves-Grows}
use yeyj_tcp_server.Buffer.Ring.{contents, IsValid}
use yeyj_tcp_server.Buffer.{
  Buffer, c_string, three_halves, write, make_room, need_grow, can_grow, write_loop, put_char,
  next_end, read,
}
use yeyj_tcp_server.Connection.Frame.{with_read, receive_overflows, receive-send}
use yeyj_tcp_server.Connection.Ready.{Handled, on_readable_event-Handled, on_writable_event_lem}
use yeyj_tcp_server.Connection.{
  Connection, Socket, Callbacks, send_message, receive_message_as_string, read_socket, write_socket,
  on_writable_event, send_raw_c, receive_raw, on_disconnection,
}
use yeyj_tcp_server.Tests.Buffers.{
  holding, holding-IsValid, ten_digits, ten_digits-IsValid, nines-AllDigits,
}
use yeyj_tcp_server.Text.{format_message}

abbrev pub plain : Buffer → Buffer → Connection
plain r w = record {
  id = 7;
  connfd = 5;
  events = record { epollin = true; epollout = true; epollet = true };
  peer_ip = 0;
  peer_port = 80;
  read_buffer = r;
  write_buffer = w;
  last_active_time = 0;
  closed = false;
}

-- a buffer with nothing in it
abbrev pub none_held : Buffer
none_held = holding 0 0 0 0

-- "1 h" and a further byte have arrived
abbrev pub arrived : Buffer
arrived = record {
  bytes = b'1' ∷ b' ' ∷ b'h' ∷ b'!' ∷ 0 ∷ [];
  current_size = 5;
  max_size = 8;
  begin = 0;
  end = pos 4;
  count = 4;
  grow_factor = three_halves;
}

pub arrived-IsValid : IsValid arrived
arrived-IsValid = record {
  storage = refl;
  growable = omega arith;
  bounded = omega arith;
  small = omega arith;
  begin_in = omega arith;
  count_in = omega arith;
  end_at = refl;
}

-- a socket on which the bytes in the list wait; it takes one byte a call
unfoldable pub loop_receive : List ℕ → ℕ → Option (List ℕ) × List ℕ
loop_receive s zero = (none, s)
loop_receive [] (suc n) = (none, [])
loop_receive (c ∷ cs) (suc n) = (some (take (suc n) (c ∷ cs)), drop (suc n) (c ∷ cs))

unfoldable pub loop_transmit : List ℕ → List ℕ → Option ℕ × List ℕ
loop_transmit s [] = (none, s)
loop_transmit s (c ∷ cs) = (some 1, s ++ c ∷ [])

pub loop_receive_bounds :
    (s : List ℕ) (n : ℕ) (cs : List ℕ)
    → (loop_receive s n).0 ≡ some cs
    → (0 < length cs) × (length cs ≤ n)
unfolding loop_receive
loop_receive_bounds s zero cs h = cc
loop_receive_bounds [] (suc n) cs h = cc
loop_receive_bounds (d ∷ ds) (suc n) cs h =
    let e : take (suc n) (d ∷ ds) ≡ cs = cc in
    rw (← e) (omega arith, omega (arith, length-take n ds))

pub loop_transmit_bounds :
    (s : List ℕ) (cs : List ℕ) (n : ℕ) → (loop_transmit s cs).0 ≡ some n → (0 < n) × (n ≤ length cs)
unfolding loop_transmit
loop_transmit_bounds s [] n h = cc
loop_transmit_bounds s (c ∷ cs) n h = let e : 1 ≡ n = cc in omega arith

abbrev pub loop : Socket
loop = record {
  S = List ℕ;
  receive = loop_receive;
  transmit = loop_transmit;
  receive_bounds = loop_receive_bounds;
  transmit_bounds = loop_transmit_bounds;
}

-- a callback that leaves the connection alone
abbrev pub quiet : Callbacks
quiet = record {
  on_connection = none;
  on_disconnection = some (λ c. ok c);
  on_message = some (λ c. ok c);
}

-- A server whose callbacks were not all set.
unset_fails :
    on_disconnection (record quiet { on_disconnection = none }) (plain none_held none_held)
    ≡ fault empty_function
unfolding on_disconnection
unset_fails = refl

receive_overflows_example : receive_message_as_string (plain ten_digits none_held) ≡ fault overflow
receive_overflows_example =
    receive_overflows (plain ten_digits none_held) (replicate 10 b'9') [] ten_digits-IsValid
      (nines-AllDigits 10) refl (omega arith)

on_readable_event-Handled_example :
    Returns
      (read_socket loop 9 (b'h' ∷ b'i' ∷ []) 8)
      λ r. Handled loop quiet 3 (plain none_held none_held) (b'h' ∷ b'i' ∷ []) r.0 r.1
on_readable_event-Handled_example =
    on_readable_event-Handled loop quiet 3 (plain none_held none_held) (b'h' ∷ b'i' ∷ [])
      (holding-IsValid 0 0 0 0 (omega arith)) three_halves-Grows (omega arith)

on_writable_event_lem_example : Returns (write_socket loop 5 [] (contents arrived)) λ r.
    (w : Buffer) × (on_writable_event loop 3 (plain none_held arrived) []
      ≡ ok (record (plain none_held arrived) { last_active_time = 3; write_buffer = w }, r.1))
    × (contents w ≡ drop r.0 (contents arrived))
    × IsValid w
    × (w.max_size ≡ arrived.max_size)
    × (w.grow_factor ≡ arrived.grow_factor)
on_writable_event_lem_example =
    on_writable_event_lem loop 3 (plain none_held arrived) [] arrived-IsValid (omega arith)

-- the connection that has framed "h"
abbrev sent : Connection
sent = plain none_held (holding 3 b'1' b' ' b'h')

sends_h : send_message (plain none_held none_held) (b'h' ∷ []) ≡ ok sent
unfolding send_message format_message write make_room need_grow can_grow write_loop put_char
    next_end store
sends_h = refl

receive-send_example :
    (r : Buffer) × (receive_message_as_string (plain arrived none_held)
      ≡ ok (b'h' ∷ [], with_read (plain arrived none_held) r))
    × (contents r ≡ b'!' ∷ [])
    × IsValid r
receive-send_example =
    receive-send (b'h' ∷ []) (b'!' ∷ []) (plain none_held none_held) sent (plain arrived none_held)
      (omega arith) (holding-IsValid 0 0 0 0 (omega arith)) three_halves-Grows refl
      (unfold format_message in omega arith) sends_h arrived-IsValid refl

-- What the other methods do to a connection.
raw_runs :
    Returns
      (send_raw_c (plain none_held none_held) (b'a' ∷ 0 ∷ b'b' ∷ []))
      λ c. contents c.write_buffer ≡ b'a' ∷ []
unfolding send_raw_c c_string write make_room need_grow can_grow write_loop put_char next_end store
raw_runs = (_, refl, refl)

receives_raw : Returns (receive_raw (plain arrived none_held) 3) λ r. r.0 ≡ b'1' ∷ b' ' ∷ b'h' ∷ []
unfolding receive_raw read
receives_raw = (_, refl, refl)
