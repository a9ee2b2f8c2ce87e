-- ===== src/Worker/Visiting.antt =====
-- The steps of `handle_event` on a connection that is in the pool.
use yeyj_tcp_server.Base.{
  ℕ, ◌≡◌, refl, sym, ap, ◌∙◌, Bool, true, false, if◌then◌else◌, some, List, [], ◌∷◌, ◌++◌, Run, ok,
  ◌>>=◌, arith,
}
use mathlib.Core.Path.{subst}
use yeyj_tcp_server.Connection.{Connection, Callbacks, Socket, on_readable_event, on_writable_event}
use yeyj_tcp_server.HashTable.Chains.{Key}
use yeyj_tcp_server.HashTable.Table.{Dict}
use yeyj_tcp_server.HashTable.Valid.{IsValid}
use yeyj_tcp_server.Worker.Pool.{Leaves, Removes-Leaves, remove_connection-Leaves, put_at_kept}
use yeyj_tcp_server.Worker.{
  Worker, Event, Pointer, put_at, deref, remove_connection, EpollCall, epoll_del, drop_broken,
  readable_at, writable_at,
}
use yeyj_tcp_server.Worker.Names.{
  SameName, KeepsName, on_readable_event-SameName, on_writable_event-SameName,
}

module _ (net : Socket) where
  open net use {S}

  -- What an event means for a connection on its own: it is read from, then written to.
  abbrev pub visit : Callbacks → ℕ → Event → Connection → S → Run (Connection × S)
  visit user now e c s = do
    (c₁, s₁) ← if e.readable then on_readable_event net user now c s else ok (c, s)
    if e.writable then on_writable_event net now c₁ s₁ else ok (c₁, s₁)

  module _ ⦃key : Key ℕ⦄ where
    pub broken_step :
        (b : Bool) (a : ℕ) (w : Worker S)
        → IsValid w.pool
        → (d : Dict ℕ Pointer) × (calls : List EpollCall) × ((if b
              then drop_broken net (some a) w
              else ok w)
            ≡ ok (record w { pool = d; epoll = calls }))
          × Leaves b (w.objects a).id w.pool d
    unfolding drop_broken deref
    broken_step false a w valid = (
      w.pool,
      w.epoll,
      refl,
      record { valid = valid; views = λ q. refl; no_more = omega arith; same_iterators = refl },
    )
    broken_step true a w valid =
        let w' = record w { epoll = w.epoll ++ epoll_del (w.objects a).connfd ∷ [] } in
        let (d, run, r) = remove_connection-Leaves a w' valid in
        (
          d,
          w'.epoll ++ epoll_del (w.objects a).connfd ∷ [],
          run,
          Removes-Leaves (w.objects a).id w.pool d r,
        )

    pub last_step :
        (a : ℕ) (c : Connection) (w : Worker S)
        → IsValid w.pool
        → w.objects a ≡ c
        → (d : Dict ℕ Pointer) × (calls : List EpollCall) × ((if (w.objects a).closed
              then remove_connection (some a) w
              else ok w)
            ≡ ok (record w { pool = d; epoll = calls }))
          × Leaves c.closed c.id w.pool d
    last_step a c w valid at_a =
        subst
          (λ x.
            (d : Dict ℕ Pointer) × (calls : List EpollCall) × ((if (w.objects a).closed
                then remove_connection (some a) w
                else ok w)
              ≡ ok (record w { pool = d; epoll = calls }))
            × Leaves x.closed x.id w.pool d)
          at_a (leaves (w.objects a).closed)
      where
        leaves :
            (b : Bool)
            → (d : Dict ℕ Pointer) × (calls : List EpollCall) × ((if b
                  then remove_connection (some a) w
                  else ok w)
                ≡ ok (record w { pool = d; epoll = calls }))
              × Leaves b (w.objects a).id w.pool d
        leaves false = (
          w.pool,
          w.epoll,
          refl,
          record { valid = valid; views = λ q. refl; no_more = omega arith; same_iterators = refl },
        )
        leaves true =
            let (d, run, r) = remove_connection-Leaves a w valid in
            (
              d,
              w.epoll ++ epoll_del (w.objects a).connfd ∷ [],
              run,
              Removes-Leaves (w.objects a).id w.pool d r,
            )

    -- The worker after `a` has become `c` and its socket `s`.
    abbrev pub served : ℕ → Connection → S → Worker S → Worker S
    served a c s w = record w {
      objects = put_at a c w.objects;
      sockets = put_at c.connfd s w.sockets;
    }

    served_same :
        (a : ℕ) (w : Worker S) → served a (w.objects a) (w.sockets (w.objects a).connfd) w ≡ w
    served_same a w = λ i. record w {
      objects = λ b. put_at_kept a w.objects b i;
      sockets = λ b. put_at_kept (w.objects a).connfd w.sockets b i;
    }

    pub readable_step :
        (r : Bool) (user : Callbacks) (now a : ℕ) (c : Connection) (s : S) (w : Worker S)
        → KeepsName user
        → (if r
            then on_readable_event net user now (w.objects a) (w.sockets (w.objects a).connfd)
            else ok (w.objects a, w.sockets (w.objects a).connfd))
          ≡ ok (c, s)
        → ((if r then readable_at net user now (some a) w else ok w) ≡ ok (served a c s w))
          × SameName (w.objects a) c
    unfolding readable_at
    readable_step true user now a c s w keeps h =
        let n =
          on_readable_event-SameName net user now (w.objects a) c (w.sockets (w.objects a).connfd) s
            keeps h in
        (
          rw h (
              ap
                (λ fd.
                  ok (record w { objects = put_at a c w.objects; sockets = put_at fd s w.sockets }))
                (sym n.1)),
          n,
        )
    readable_step false user now a c s w keeps h =
        let e : w.objects a ≡ c = cc h in
        let e' : w.sockets (w.objects a).connfd ≡ s = cc h in
        (
          ap (λ x. ok x) (sym (served_same a w)) ∙ (λ i. ok (served a (e i) (e' i) w)),
          (ap (λ (z : Connection). z.id) (sym e), ap (λ (z : Connection). z.connfd) (sym e)),
        )

    pub writable_step :
        (r : Bool) (now a : ℕ) (c : Connection) (s : S) (w : Worker S)
        → (if r
            then on_writable_event net now (w.objects a) (w.sockets (w.objects a).connfd)
            else ok (w.objects a, w.sockets (w.objects a).connfd))
          ≡ ok (c, s)
        → ((if r then writable_at net now (some a) w else ok w) ≡ ok (served a c s w))
          × SameName (w.objects a) c
    unfolding writable_at
    writable_step true now a c s w h =
        let n =
          on_writable_event-SameName net now (w.objects a) c (w.sockets (w.objects a).connfd) s h in
        (
          rw h (
              ap
                (λ fd.
                  ok (record w { objects = put_at a c w.objects; sockets = put_at fd s w.sockets }))
                (sym n.1)),
          n,
        )
    writable_step false now a c s w h =
        let e : w.objects a ≡ c = cc h in
        let e' : w.sockets (w.objects a).connfd ≡ s = cc h in
        (
          ap (λ x. ok x) (sym (served_same a w)) ∙ (λ i. ok (served a (e i) (e' i) w)),
          (ap (λ (z : Connection). z.id) (sym e), ap (λ (z : Connection). z.connfd) (sym e)),
        )
