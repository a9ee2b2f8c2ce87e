-- ===== src/Worker/Handling.antt =====
-- `handle_event`: an event reaches the connection of its number, which leaves the pool if it is
-- closed or broken; an event for a number that is not in the pool dereferences a null pointer.
use yeyj_tcp_server.Base.{
  bind-returns, ℕ, ◌+◌, ◌*◌, ◌≤◌, ◌≡◌, refl, sym, ap, ◌∙◌, Bool, true, false, ◌||◌, if◌then◌else◌,
  none, some, ok, fault, null_pointer, ◌>>=◌, Returns,
}
use mathlib.Core.Path.{subst}
use yeyj_tcp_server.Connection.{Connection, Callbacks, Socket, on_readable_event, on_writable_event}
use yeyj_tcp_server.HashTable.Chains.{Key}
use yeyj_tcp_server.HashTable.Table.{most_buckets}
use yeyj_tcp_server.HashTable.Valid.{view, IsValid}
use yeyj_tcp_server.Worker.Pool.{
  Leaves, Leaves-trans, subscript_get_present, subscript_get_missing, put_at_self, put_at_twice,
}
use yeyj_tcp_server.Worker.{
  Worker, Event, put_at, deref, remove_connection, drop_broken, readable_at, writable_at,
  handle_event,
}
use yeyj_tcp_server.Worker.Names.{KeepsName}
use yeyj_tcp_server.Worker.Visiting.{
  visit, served, broken_step, last_step, readable_step, writable_step,
}

module _ (net : Socket) where
  open net use {S}

  module _ ⦃key : Key ℕ⦄ where
    -- An event for a number that the pool does not have ends the process: the pointer that the
    -- dictionary makes up for the number is null.
    pub handle_event_missing :
        (user : Callbacks) (now : ℕ) (e : Event) (w : Worker S)
        → IsValid w.pool
        → (w.pool.ht0.used + w.pool.ht1.used) * 2 ≤ most_buckets
        → view w.pool e.id ≡ none
        → handle_event net user now e w ≡ fault null_pointer
    unfolding handle_event drop_broken readable_at writable_at deref
    handle_event_missing user now e w valid small missing =
        let (d, run) = subscript_get_missing e.id w.pool valid small missing in
        rw run (falls (e.error || e.hangup) e.readable e.writable (record w { pool = d }))
      where
        falls :
            (b r t : Bool) (w₀ : Worker S)
            → ((if b then drop_broken net none w₀ else ok w₀) >>= λ w₁.
                (if r then readable_at net user now none w₁ else ok w₁) >>= λ w₂.
                (if t then writable_at net now none w₂ else ok w₂) >>= λ w₃.
                deref none w₃ >>= λ c. if c.closed then remove_connection none w₃ else ok w₃)
              ≡ fault null_pointer
        falls true r t w₀ = refl
        falls false true t w₀ = refl
        falls false false true w₀ = refl
        falls false false false w₀ = refl

    -- An event for the number of a connection that is in the pool, where the callbacks return and
    -- keep numbers and descriptors: the connection and its socket are as reading and writing leave
    -- them, no other one is touched, and the pool loses the number if the flags have an error or a
    -- hangup or the connection is closed by then, and no other number.
    pub handle_event-Leaves :
        (user : Callbacks) (now : ℕ) (e : Event) (a : ℕ) (c : Connection) (s : S) (w : Worker S)
        → IsValid w.pool
        → (w.pool.ht0.used + w.pool.ht1.used) * 2 ≤ most_buckets
        → view w.pool e.id ≡ some (some a)
        → (w.objects a).id ≡ e.id
        → KeepsName user
        → visit net user now e (w.objects a) (w.sockets (w.objects a).connfd) ≡ ok (c, s)
        → Returns (handle_event net user now e w) (λ w'.
          (w'.objects ≡ put_at a c w.objects)
          × (w'.sockets ≡ put_at c.connfd s w.sockets)
          × (w'.incoming ≡ w.incoming)
          × Leaves (e.error || e.hangup || c.closed) e.id w.pool w'.pool)
    unfolding handle_event deref
    handle_event-Leaves user now e a c s w valid small there named keeps visited =
        let o = w.objects a in
        let t = w.sockets o.connfd in
        let ((p, d₀), found, (is_a, l₀)) =
          subscript_get_present (some a) e.id w.pool valid small there in
        let w₀ = record w { pool = d₀ } in
        let (d₁, calls₁, first, l₁) = broken_step net (e.error || e.hangup) a w₀ l₀.valid in
        let w₁ = record w { pool = d₁; epoll = calls₁ } in
        let (r, read, wrote) =
          bind-returns (if e.readable then on_readable_event net user now o t else ok (o, t))
            (λ r. if e.writable then on_writable_event net now r.0 r.1 else ok r) (c, s) visited in
        let (second, n₁) = readable_step net e.readable user now a r.0 r.1 w₁ keeps read in
        let w₂ = served net a r.0 r.1 w₁ in
        let at_a : w₂.objects a ≡ r.0 = put_at_self a r.0 w.objects in
        let at_fd : w₂.sockets (w₂.objects a).connfd ≡ r.1 =
          ap (λ (x : Connection). w₂.sockets x.connfd) at_a
          ∙ put_at_self r.0.connfd r.1 w.sockets in
        let (third, n₂) = writable_step net e.writable now a c s w₂ (
          subst
            (λ (x : Connection × S).
              (if e.writable then on_writable_event net now x.0 x.1 else ok x) ≡ ok (c, s))
            (λ i. (sym at_a i, sym at_fd i)) wrote) in
        let w₃ = served net a c s w₂ in
        let (d₄, calls₄, last, l₄) = last_step net a c w₃ l₁.valid (put_at_self a c w₂.objects) in
        let id₁ : r.0.id ≡ e.id = n₁.0 ∙ named in
        let id₂ : c.id ≡ e.id = n₂.0 ∙ ap (λ (x : Connection). x.id) at_a ∙ id₁ in
        let fd₂ : r.0.connfd ≡ c.connfd = sym (n₂.1 ∙ ap (λ (x : Connection). x.connfd) at_a) in
        (
          record w₃ { pool = d₄; epoll = calls₄ },
          rw (found, is_a, first, second, third, last),
          (
            (λ i b. put_at_twice a c r.0 w.objects b i),
            ap (λ fd. put_at c.connfd s (put_at fd r.1 w.sockets)) fd₂
                ∙ (λ i b. put_at_twice c.connfd s r.1 w.sockets b i),
            refl,
            Leaves-trans false (e.error || e.hangup || c.closed) e.id w.pool d₀ d₄ l₀ (
                Leaves-trans (e.error || e.hangup) c.closed e.id d₀ d₁ d₄
                  (subst (λ n. Leaves (e.error || e.hangup) n d₀ d₁) named l₁)
                  (subst (λ n. Leaves c.closed n d₁ d₄) id₂ l₄)),
          ),
        )
