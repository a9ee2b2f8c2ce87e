-- ===== src/Example/Serving.antt =====
-- The callbacks of main.cpp fill the interface `Service`, for the connections that the server makes.
use mathlib.Core.Path.{subst}
use native.Mathlib.Decide.{ℕ_discrete}
use yeyj_tcp_server.Base.{
  bind-returns, ℕ, ◌+◌, ◌≤◌, ◌≡◌, refl, sym, ap, ◌∙◌, arith, Bool, true, false, List,
  ◌==◌ as nat_eq, Bool-cases, inl, inr, ok, ◌>>=◌, Returns, if◌then◌else◌,
}
use yeyj_tcp_server.Buffer.Read.{after-IsValid}
use yeyj_tcp_server.Buffer.Ring.{IsValid, max_bytes}
use yeyj_tcp_server.Buffer.Write.{Grows, Extends}
use yeyj_tcp_server.Buffer.Faults.{three_halves-Grows}
use yeyj_tcp_server.Buffer.Making.{new-IsFresh}
use yeyj_tcp_server.Example.Echoing.{answer, emptied, echo_lem}
use yeyj_tcp_server.Buffer.{three_halves, Buffer, write, read_all_as_string}
use yeyj_tcp_server.Connection.{
  Connection, Sizes, new_connection, Socket, invoke, receive_raw_as_string, send_raw,
  on_readable_event, on_writable_event, on_disconnection,
}
use yeyj_tcp_server.Connection.Ready.{
  Handled, disconnected, delivered, on_readable_event-Handled, on_writable_event_lem,
}
use yeyj_tcp_server.Example.{echo, callbacks}
use yeyj_tcp_server.Worker.{Event}
use yeyj_tcp_server.Worker.Names.{SameName}
use yeyj_tcp_server.Worker.Service.{Service}
use yeyj_tcp_server.Worker.Visiting.{visit}

-- What holds of a connection of the server between two events, closed or not: its buffers are valid,
-- and nothing is left in its read buffer.
pub record IsSteady (c : Connection) : Type 0 where
  pub reads : IsValid c.read_buffer
  pub reads_grow : Grows c.read_buffer.grow_factor
  pub writes : IsValid c.write_buffer
  pub writes_grow : Grows c.write_buffer.grow_factor
  pub nothing_left : c.read_buffer.count ≡ 0
  pub small : c.read_buffer.max_size + c.write_buffer.max_size ≤ max_bytes

abbrev pub IsEchoing : Connection → Type 0
IsEchoing c = (c.closed ≡ false) × IsSteady c

emptied-IsSteady :
    (c : Connection) (w : Buffer) (cs : List ℕ)
    → IsValid c.read_buffer
    → Grows c.read_buffer.grow_factor
    → Grows c.write_buffer.grow_factor
    → c.read_buffer.max_size + c.write_buffer.max_size ≤ max_bytes
    → Extends c.write_buffer cs w
    → IsSteady (emptied c w)
emptied-IsSteady c w cs v g g' small x = record {
  reads = after-IsValid c.read_buffer.count v (omega arith);
  reads_grow = g;
  writes = x.valid;
  writes_grow = subst Grows (sym x.same_factor) g';
  nothing_left = omega arith;
  small = omega (arith, x.same_max);
}

module _ (net : Socket) where
  open net use {S}

  reading-IsSteady :
      (now : ℕ) (c : Connection) (s : S)
      → IsSteady c
      → Returns (on_readable_event net callbacks now c s) (λ r. IsSteady r.0)
  unfolding callbacks invoke on_disconnection
  reading-IsSteady now c s t =
      let ((cs, s'), run, handled) =
        on_readable_event-Handled net callbacks now c s t.reads t.reads_grow
          (omega (arith, t.nothing_left, t.reads.growable, t.reads.bounded)) in
      after_reading cs s' handled
    where
      after_reading :
          (cs : List ℕ) (s' : S)
          → Handled net callbacks now c s cs s'
          → Returns (on_readable_event net callbacks now c s) (λ r. IsSteady r.0)
      after_reading cs s' (disconnected nothing e) = (
        (record c { last_active_time = now; closed = true }, s'),
        e,
        record {
          reads = t.reads;
          reads_grow = t.reads_grow;
          writes = t.writes;
          writes_grow = t.writes_grow;
          nothing_left = t.nothing_left;
          small = t.small;
        },
      )
      after_reading cs s' (delivered r x e) =
          let d : Connection = record c { last_active_time = now; read_buffer = r } in
          let grows = subst Grows (sym x.same_factor) t.reads_grow in
          let small : r.max_size + c.write_buffer.max_size ≤ max_bytes =
            omega (arith, x.same_max, t.small) in
          let (w, ran, y) = echo_lem d (x.valid, t.writes, t.writes_grow, small) in
          (
            (emptied d w, s'),
            e ∙ ap (λ run. run >>= λ c'. ok (c', s')) ran,
            emptied-IsSteady d w (answer d) x.valid grows t.writes_grow small y,
          )

  writing-IsSteady :
      (now : ℕ) (c : Connection) (s : S)
      → IsSteady c
      → Returns (on_writable_event net now c s) (λ r. IsSteady r.0)
  unfolding on_writable_event
  writing-IsSteady now c s t = elim (ℕ_discrete c.write_buffer.count 0) [
    | yes nothing ↦
        let test : nat_eq c.write_buffer.count 0 ≡ true = ground arith in
        (
          (record c { last_active_time = now }, s),
          rw test,
          record {
            reads = t.reads;
            reads_grow = t.reads_grow;
            writes = t.writes;
            writes_grow = t.writes_grow;
            nothing_left = t.nothing_left;
            small = t.small;
          },
        )
    | no some_left ↦
        let (r, run, (w, ran, left, v, same_max, same_factor)) =
          on_writable_event_lem net now c s t.writes (omega arith) in
        (
          (record c { last_active_time = now; write_buffer = w }, r.1),
          ran,
          record {
            reads = t.reads;
            reads_grow = t.reads_grow;
            writes = v;
            writes_grow = subst Grows (sym same_factor) t.writes_grow;
            nothing_left = t.nothing_left;
            small = omega (arith, same_max, t.small);
          },
        )
  ]

  visit-IsSteady :
      (now : ℕ) (e : Event) (c : Connection) (s : S)
      → IsSteady c
      → Returns (visit net callbacks now e c s) (λ r. IsSteady r.0)
  visit-IsSteady now e c s t = reads e.readable
    where
      writes :
          (b : Bool) (d : Connection) (u : S)
          → IsSteady d
          → Returns (if b then on_writable_event net now d u else ok (d, u)) (λ r. IsSteady r.0)
      writes true d u t = writing-IsSteady now d u t
      writes false d u t = ((d, u), refl, t)

      reads :
          (b : Bool)
          → Returns
              ((if b then on_readable_event net callbacks now c s else ok (c, s)) >>= λ r.
                if e.writable then on_writable_event net now r.0 r.1 else ok r)
              (λ r. IsSteady r.0)
      reads true =
          let (r, run, t₁) = reading-IsSteady now c s t in
          let (r', run', t₂) = writes e.writable r.0 r.1 t₁ in (r', rw run run', t₂)
      reads false = writes e.writable c s t

  echo-SameName : (c c' : Connection) → echo c ≡ ok c' → SameName c c'
  unfolding echo receive_raw_as_string send_raw
  echo-SameName c c' h =
      let ((text, c₁), got, rest) =
        bind-returns (receive_raw_as_string c) (λ r. send_raw r.1 r.0) c' h in
      let ((cs, b), read_it, first) =
        bind-returns (read_all_as_string c.read_buffer)
          (λ r. ok (r.0, record c { read_buffer = r.1 })) (text, c₁) got in
      let ((n, w), wrote, second) =
        bind-returns (write c₁.write_buffer text) (λ r. ok (record c₁ { write_buffer = r.1 })) c'
          rest in
      let same₁ : record c { read_buffer = b } ≡ c₁ = cc first in
      let same₂ : record c₁ { write_buffer = w } ≡ c' = cc second in
      (
        sym (ap (λ (x : Connection). x.id) same₁ ∙ ap (λ (x : Connection). x.id) same₂),
        sym (ap (λ (x : Connection). x.connfd) same₁ ∙ ap (λ (x : Connection). x.connfd) same₂),
      )

  same_name : (c c' : Connection) → ok c ≡ ok c' → SameName c c'
  same_name c c' h =
      let same : c ≡ c' = cc h in
      (ap (λ (x : Connection). x.id) (sym same), ap (λ (x : Connection). x.connfd) (sym same))

  -- The callbacks of main.cpp serve every open connection whose buffers are valid and grow, with
  -- an empty read buffer, and largest sizes with a sum of at most 1 GiB.
  pub callbacks-Service : Service net callbacks IsEchoing
  unfolding callbacks invoke
  callbacks-Service = record {
    is_open = λ c (open_now, t). open_now;
    keeps = record {
      message = λ c c' h. echo-SameName c c' h;
      disconnection = λ c c' h. same_name c c' h;
    };
    welcomes = λ c p. (c, refl, ((refl, refl), p));
    visits = λ now e c s (open_now, t).
        (let (r, run, t') = visit-IsSteady now e c s t in
          (
            r,
            run,
            elim (Bool-cases r.0.closed) [ inl closed ↦ inl closed | inr still ↦ inr (still, t') ],
          ));
  }

-- The constructor of `TcpConnection`, with sizes of the buffers from 2 on, in order, and the largest
-- with a sum of at most 1 GiB: the connection is one of those that the callbacks serve.
pub new_connection-IsEchoing :
    (id fd ip port now : ℕ) (sizes : Sizes)
    → 2 ≤ sizes.read_init
    → sizes.read_init ≤ sizes.read_max
    → 2 ≤ sizes.write_init
    → sizes.write_init ≤ sizes.write_max
    → sizes.read_max + sizes.write_max ≤ max_bytes
    → Returns (new_connection id fd ip port sizes now) (λ c. (c.id ≡ id) × IsEchoing c)
unfolding new_connection
new_connection-IsEchoing id fd ip port now sizes two le two' le' small =
    let (r, read, fr) =
      new-IsFresh sizes.read_init sizes.read_max three_halves two le (omega arith) in
    let (w, write, fw) =
      new-IsFresh sizes.write_init sizes.write_max three_halves two' le' (omega arith) in
    let c : Connection = record {
      id = id;
      connfd = fd;
      events = record { epollin = true; epollout = true; epollet = true };
      peer_ip = ip;
      peer_port = port;
      read_buffer = r;
      write_buffer = w;
      last_active_time = now;
      closed = false;
    } in
    (
      c,
      rw (read, write),
      (
        refl,
        (
          refl,
          record {
            reads = fr.valid;
            reads_grow = subst Grows (sym fr.its_factor) three_halves-Grows;
            writes = fw.valid;
            writes_grow = subst Grows (sym fw.its_factor) three_halves-Grows;
            nothing_left = fr.nothing;
            small = omega (arith, fr.largest_size, fw.largest_size);
          },
        ),
      ),
    )
