-- ===== src/Connection.antt =====
-- The class `TcpConnection` of tcpConnection.h and tcpConnection.cpp. What is outside of the
-- repository enters as parameters: the socket that `read` and `write` work on, the clock, and the
-- callbacks that the user of the server sets. Text printed to `std::cout` is not modelled.
pub mod Frame
pub mod Ready
use yeyj_tcp_server.Base.{
  ℕ, zero, suc, ◌+◌, ◌-◌, ◌≤◌, ◌<◌, ◌≡◌, Bool, true, false, not, ◌&&◌, Option, none, some, List, [],
  ◌∷◌, ◌++◌, ltb, leb, ◌==◌, if◌then◌else◌, length, take, drop, Run, ok, fault, process_exit,
  empty_function, endless, ◌>>=◌, ◌>>◌, add_int,
}
use yeyj_tcp_server.Buffer.{
  Buffer, new, three_halves, empty, get_max_space, write, read, copy, skip_head, read_as_string,
  read_all_as_string, peek_int_with_length, c_string,
}
use yeyj_tcp_server.Text.{format_message}

-- The flags of `_epollEvent.events`.
pub record Events : Type 0 where
  pub epollin : Bool
  pub epollout : Bool
  pub epollet : Bool

-- `peer` is `_peerAddr`'s number; the pointers to the server and the worker are left out, since
-- what is called through them is a parameter.
pub record Connection : Type 0 where
  pub id : ℕ
  pub connfd : ℕ
  pub events : Events
  pub peer_ip : ℕ
  pub peer_port : ℕ
  pub read_buffer : Buffer
  pub write_buffer : Buffer
  pub last_active_time : ℕ
  pub closed : Bool

-- The four sizes that the constructor hands to its buffers.
pub record Sizes : Type 0 where
  pub read_init : ℕ
  pub read_max : ℕ
  pub write_init : ℕ
  pub write_max : ℕ

unfoldable pub new_connection : ℕ → ℕ → ℕ → ℕ → Sizes → ℕ → Run Connection
new_connection id connfd ip port sizes now = do
  r ← new sizes.read_init sizes.read_max three_halves
  w ← new sizes.write_init sizes.write_max three_halves
  ok (record {
    id = id;
    connfd = connfd;
    events = record { epollin = true; epollout = true; epollet = true };
    peer_ip = ip;
    peer_port = port;
    read_buffer = r;
    write_buffer = w;
    last_active_time = now;
    closed = false;
  })

unfoldable pub update_epoll_event : Connection → Connection
unfolding empty
update_epoll_event c =
    if c.closed
    then c
    else record c { events = record (c.events) { epollout = not (empty c.write_buffer) } }

-- `sendRaw`: a string that is too long is cut by the buffer.
unfoldable pub send_raw : Connection → List ℕ → Run Connection
send_raw c str = do (n, w) ← write c.write_buffer str; ok (record c { write_buffer = w })

-- `sendRaw(const char *)` measures its string with `strlen`.
unfoldable pub send_raw_c : Connection → List ℕ → Run Connection
unfolding send_raw
send_raw_c c str = send_raw c (c_string str)

-- `sendMessage(const char *, int)`: the number in the frame is `size`, and the string is not cut
-- to it.
unfoldable pub send_message_sized : Connection → List ℕ → ℕ → Run Connection
send_message_sized c str size = do
  (n, w) ← write c.write_buffer (format_message size str)
  ok (record c { write_buffer = w })

-- `sendMessage(const std::string &)`.
unfoldable pub send_message : Connection → List ℕ → Run Connection
unfolding send_message_sized
send_message c str = send_message_sized c str (length str)

unfoldable pub send_message_c : Connection → List ℕ → Run Connection
unfolding send_message_sized
send_message_c c str = send_message_sized c (c_string str) (length (c_string str))

unfoldable pub receive_raw_as_string : Connection → Run (List ℕ × Connection)
receive_raw_as_string c = do
  (s, r) ← read_all_as_string c.read_buffer
  ok (s, record c { read_buffer = r })

unfoldable pub receive_raw : Connection → ℕ → Run (List ℕ × Connection)
receive_raw c n = do (s, r) ← read c.read_buffer n; ok (s, record c { read_buffer = r })

-- The common part of `receiveMessageAsString` and `receiveMessage`: what the frame announces is
-- handed to `take_out`, which is `receiveRawAsString(int)` or `receiveRaw(char *, int)`. The result
-- is empty where no frame, or not the whole of one, has arrived.
unfoldable pub receive_with :
    (Buffer → ℕ → Run (List ℕ × Buffer)) → Connection → Run (List ℕ × Connection)
receive_with take_out c = do
  (found, size, digits) ← peek_int_with_length c.read_buffer b' '
  let whole = do
    head ← add_int digits 1
    need ← add_int head size
    let out = do
      r ← skip_head c.read_buffer head
      (s, r') ← take_out r size
      ok (s, record c { read_buffer = r' })
    if leb need c.read_buffer.count then out else ok ([], c)
  if found then whole else ok ([], c)

unfoldable pub receive_message_as_string : Connection → Run (List ℕ × Connection)
unfolding receive_with
receive_message_as_string = receive_with read_as_string

unfoldable pub receive_message : Connection → Run (List ℕ × Connection)
unfolding receive_with
receive_message = receive_with read

-- The functions that the user sets; `none` is a `std::function` that was never set.
pub record Callbacks : Type 0 where
  pub on_connection : Option (Connection → Run Connection)
  pub on_disconnection : Option (Connection → Run Connection)
  pub on_message : Option (Connection → Run Connection)

-- A call of an empty `std::function` throws `std::bad_function_call`, which nothing catches.
unfoldable pub invoke : Option (Connection → Run Connection) → Connection → Run Connection
invoke none c = fault empty_function
invoke (some f) c = f c

-- What `read(fd, buffer, n)` and `write(fd, buffer, n)` of the system do on a socket of type `S`.
-- `none` is a result of 0 or below: end of input, or an error such as `EAGAIN`.
pub record Socket : Type 1 where
  pub S : Type 0
  pub receive : S → ℕ → Option (List ℕ) × S
  pub transmit : S → List ℕ → Option ℕ × S
  -- a positive result says how many of the bytes asked for were moved
  pub receive_bounds :
      (s : S) (n : ℕ) (cs : List ℕ) → (receive s n).0 ≡ some cs → (0 < length cs) × (length cs ≤ n)
  pub transmit_bounds :
      (s : S) (cs : List ℕ) (n : ℕ) → (transmit s cs).0 ≡ some n → (0 < n) × (n ≤ length cs)

unfoldable pub on_disconnection : Callbacks → Connection → Run Connection
unfolding invoke
on_disconnection user c = do c' ← invoke user.on_disconnection c; ok (record c' { closed = true })

-- `onReadableEvent` after its loop: nothing read counts as a disconnection.
unfoldable pub on_received : Callbacks → Connection → List ℕ → Run Connection
unfolding on_disconnection
on_received user c received =
    let deliver = (do
      (n, r) ← write c.read_buffer received
      invoke user.on_message (record c { read_buffer = r })) in
    if length received == 0 then on_disconnection user c else deliver

-- `onWritableEvent` after its loop.
unfoldable pub on_sent : Connection → ℕ → Run Connection
on_sent c sent =
    let skip = (do w ← skip_head c.write_buffer sent; ok (record c { write_buffer = w })) in
    if sent == 0 then ok c else skip

module _ (net : Socket) where
  open net use {S, receive, transmit}

  -- `while((ret = read(_connfd, buffer + totalRead, space)) > 0)`: the bytes read, with the rounds
  -- that the loop may make. Each round takes from `space`, so `space + 1` are enough.
  unfoldable pub read_socket : ℕ → S → ℕ → Run (List ℕ × S)
  read_socket zero s space = fault endless
  read_socket (suc rounds) s space =
      let (got, s') = receive s space in
      elim got [
        | none ↦ ok ([], s')
        | some cs ↦ do (rest, s'') ← read_socket rounds s' (space - length cs); ok (cs ++ rest, s'')
      ]

  -- `while((ret = write(_connfd, buffer + totalWrite, size)) > 0)`: the number of bytes sent.
  unfoldable pub write_socket : ℕ → S → List ℕ → Run (ℕ × S)
  write_socket zero s cs = fault endless
  write_socket (suc rounds) s cs =
      let (sent, s') = transmit s cs in
      elim sent [
        | none ↦ ok (0, s')
        | some n ↦ do (more, s'') ← write_socket rounds s' (drop n cs); ok (n + more, s'')
      ]

  -- Where the read buffer has no space left the whole process exits.
  unfoldable pub on_readable_event : Callbacks → ℕ → Connection → S → Run (Connection × S)
  unfolding get_max_space
  on_readable_event user now c s =
      let space = get_max_space c.read_buffer in
      let handle = (do
        (received, s') ← read_socket (space + 1) s space
        c' ← on_received user (record c { last_active_time = now }) received
        ok (c', s')) in
      if space == 0 then fault process_exit else handle

  unfoldable pub on_writable_event : ℕ → Connection → S → Run (Connection × S)
  on_writable_event now c s =
      let c₁ = record c { last_active_time = now } in
      let size = c.write_buffer.count in
      let handle = (do
        bytes ← copy c.write_buffer size
        (sent, s') ← write_socket (size + 1) s bytes
        c' ← on_sent c₁ sent
        ok (c', s')) in
      if size == 0 then ok (c₁, s) else handle
