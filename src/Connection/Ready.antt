-- ===== src/Connection/Ready.antt =====
-- `onReadableEvent` and `onWritableEvent`: what comes in is stored, and what goes out is removed.
use yeyj_tcp_server.Base.{
  ℕ, zero, suc, ◌+◌, ◌-◌, ◌≤◌, ◌<◌, ◌≡◌, refl, ap, ◌∙◌, arith, false, ◌==◌, List, [], ◌∷◌, ◌++◌,
  Option-cases, Bool-cases, inl, inr, ok, ◌>>=◌, Returns, length, length-append, drop, length-drop,
  take-all,
}
use yeyj_tcp_server.Buffer.Read.{copy-ok, skip_head-ok, after, after-IsValid, contents-after}
use yeyj_tcp_server.Buffer.Ring.{contents, IsValid, length-contents}
use yeyj_tcp_server.Buffer.Write.{Grows, Extends, write_lem}
use yeyj_tcp_server.Buffer.{Buffer, copy}
use yeyj_tcp_server.Connection.{
  Connection, Socket, Callbacks, invoke, read_socket, write_socket, on_received, on_sent,
  on_disconnection, on_readable_event, on_writable_event,
}

length-eq-zero : (cs : List ℕ) → length cs ≡ 0 → cs ≡ []
length-eq-zero [] h = refl
length-eq-zero (c ∷ cs) h = absurd (omega arith)

module _ (net : Socket) where
  open net use {S, receive, transmit, receive_bounds, transmit_bounds}

  -- The loop over `read` ends within `space + 1` rounds, with at most `space` bytes.
  pub read_socket_bound :
      (rounds : ℕ) (s : S) (space : ℕ)
      → space < rounds
      → Returns (read_socket net rounds s space) λ r. length r.0 ≤ space
  unfolding read_socket
  read_socket_bound zero s space enough = absurd (omega arith)
  read_socket_bound (suc rounds) s space enough = elim (Option-cases (receive s space).0) [
    | inl nothing ↦ (([], (receive s space).1), rw (nothing, read_socket), omega arith)
    | inr (cs, got) ↦
        let bounds = receive_bounds s space cs got in
        let ((rest, s'), run, le) =
          read_socket_bound rounds (receive s space).1 (space - length cs) (omega arith) in
        ((cs ++ rest, s'), rw (got, read_socket, run), rw length-append (omega arith))
  ]

  -- The loop over `write` ends within `size + 1` rounds, and sends at most what it is given.
  pub write_socket_bound :
      (rounds : ℕ) (s : S) (cs : List ℕ)
      → length cs < rounds
      → Returns (write_socket net rounds s cs) λ r. r.0 ≤ length cs
  unfolding write_socket
  write_socket_bound zero s cs enough = absurd (omega arith)
  write_socket_bound (suc rounds) s cs enough = elim (Option-cases (transmit s cs).0) [
    | inl nothing ↦ ((0, (transmit s cs).1), rw (nothing, write_socket), omega arith)
    | inr (n, sent) ↦
        let bounds = transmit_bounds s cs n sent in
        let ((more, s'), run, le) =
          write_socket_bound rounds (transmit s cs).1 (drop n cs)
            (omega (arith, length-drop n cs)) in
        ((n + more, s'), rw (sent, write_socket, run), omega (arith, length-drop n cs))
  ]

  -- What `onReadableEvent` makes of the bytes `cs` that it read from `s`, leaving `s'`: nothing read
  -- is a disconnection; otherwise all of `cs` is stored behind what the read buffer holds, and the
  -- message callback gets the connection with it.
  pub data Handled (user : Callbacks) (now : ℕ) (c : Connection) (s : S) (cs : List ℕ) (s' : S)
      : Type 0 where
    disconnected :
        cs ≡ []
        → on_readable_event net user now c s
          ≡ on_disconnection user (record c { last_active_time = now }) >>= (λ c'. ok (c', s'))
        → Handled user now c s cs s'
    delivered :
        (r : Buffer)
        → Extends c.read_buffer cs r
        → on_readable_event net user now c s
          ≡ invoke user.on_message (record c { last_active_time = now; read_buffer = r })
            >>= (λ c'. ok (c', s'))
        → Handled user now c s cs s'

  -- On a connection whose read buffer is valid, has a factor that grows, and has space below its
  -- largest size, the loop of `onReadableEvent` ends. If it read nothing the connection is treated
  -- as disconnected; otherwise the message callback gets it with all that was read appended.
  pub on_readable_event-Handled :
      (user : Callbacks) (now : ℕ) (c : Connection) (s : S)
      → IsValid c.read_buffer
      → Grows c.read_buffer.grow_factor
      → c.read_buffer.count < c.read_buffer.max_size
      → let space = c.read_buffer.max_size - c.read_buffer.count in
        Returns (read_socket net (space + 1) s space) λ r. Handled user now c s r.0 r.1
  unfolding on_readable_event on_received
  on_readable_event-Handled user now c s v g room =
      let b = c.read_buffer in
      let space = b.max_size - b.count in
      let open_space : (space == 0) ≡ false = ground arith in
      let ((cs, s'), run, le) = read_socket_bound (space + 1) s space (omega arith) in
      let (r, stores, (n, x)) = write_lem cs v g (omega (arith, v.small)) in
      let all = take-all space cs le in
      (
        (cs, s'),
        run,
        elim (Bool-cases (length cs == 0)) [
          | inl none_read ↦
              disconnected (length-eq-zero cs (ground arith)) (rw (open_space, run, none_read))
          | inr some_read ↦ delivered r.1 (rw all at x) (rw (open_space, run, some_read, stores))
        ],
      )

  -- On a connection whose write buffer is valid and not empty, `onWritableEvent` does not fault: its
  -- loop ends, and exactly the bytes that the socket took leave the front of the write buffer.
  pub on_writable_event_lem :
      (now : ℕ) (c : Connection) (s : S)
      → IsValid c.write_buffer
      → 0 < c.write_buffer.count
      → Returns (write_socket net (c.write_buffer.count + 1) s (contents c.write_buffer)) λ r.
        (w : Buffer) × (on_writable_event net now c s
          ≡ ok (record c { last_active_time = now; write_buffer = w }, r.1))
        × (contents w ≡ drop r.0 (contents c.write_buffer))
        × IsValid w
        × (w.max_size ≡ c.write_buffer.max_size)
        × (w.grow_factor ≡ c.write_buffer.grow_factor)
  unfolding on_writable_event on_sent
  on_writable_event_lem now c s v some_left =
      let b = c.write_buffer in
      let bytes = contents b in
      let waiting : (b.count == 0) ≡ false = ground arith in
      let size = length-contents b in
      let copied : copy b b.count ≡ ok bytes =
        copy-ok b.count v ∙ ap (λ cs. ok cs) (take-all b.count bytes (omega arith)) in
      let ((n, s'), run, le) = write_socket_bound (b.count + 1) s bytes (omega arith) in
      (
        (n, s'),
        run,
        elim (Bool-cases (n == 0)) [
          | inl nothing ↦
              let zero_sent : n ≡ 0 = ground arith in
              (b, rw (waiting, copied, run, nothing), rw zero_sent, v, refl, refl)
          | inr something ↦ (
            after n b,
            rw (waiting, copied, run, something, skip_head-ok n v (omega arith)),
            contents-after n v (omega arith),
            after-IsValid n v (omega arith),
            refl,
            refl,
          )
        ],
      )
