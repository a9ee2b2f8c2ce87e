-- ===== src/Worker/Registering.antt =====
-- `registerNewConnection()` of a worker: the connections that other threads have queued enter the
-- pool under their numbers.
use mathlib.Core.List.{map}
use yeyj_tcp_server.Base.{
  ℕ, ◌+◌, ◌*◌, ◌≤◌, ◌≡◌, refl, sym, ap, ◌∙◌, arith, if◌then◌else◌, Option, none, some, List, [],
  ◌∷◌, ◌++◌, Bool-cases, inl, inr, length, ◌>>=◌, Returns, ◌==◌ as nat_eq,
}
use yeyj_tcp_server.Connection.{Connection, Callbacks, invoke}
use yeyj_tcp_server.HashTable.Assigning.{Assigns}
use yeyj_tcp_server.HashTable.Chains.{Key, ◌==◌, eq_of_equal}
use yeyj_tcp_server.HashTable.Subscript.{subscript_set-Assigns}
use yeyj_tcp_server.HashTable.Table.{Dict, most_buckets}
use yeyj_tcp_server.HashTable.Valid.{view, IsValid}
use yeyj_tcp_server.Worker.Names.{SameName}
use yeyj_tcp_server.Worker.{
  Worker, Pointer, put_at, load_factor, epoll_add, register_one, register_loop, register_incoming,
}

-- The connection callback returns, and keeps numbers and descriptors, which have no setter.
abbrev pub Welcomes : Callbacks → Type 0
Welcomes user = (c : Connection) → Returns (invoke user.on_connection c) (SameName c)

-- The numbers of the connections by their addresses.
abbrev pub ids : {S : Type 0} → Worker S → ℕ → ℕ
ids w b = (w.objects b).id

module _ ⦃key : Key ℕ⦄ where
  -- What a map has at `q`, where it had `o`, after the addresses were entered under their numbers.
  abbrev pub latest : (ℕ → ℕ) → List ℕ → ℕ → Option Pointer → Option Pointer
  latest number [] q o = o
  latest number (a ∷ ps) q o = latest number ps q (if q == number a then some (some a) else o)

  module _ {S : Type 0} where
    -- `w'` is `w` with the addresses entered; the rest of `w` but for the calls of epoll is kept.
    pub record Registered (ps : List ℕ) (w w' : Worker S) : Type 0 where
      pub valid : IsValid w'.pool
      pub views : (q : ℕ) → view w'.pool q ≡ latest (ids w) ps q (view w.pool q)
      pub numbers : ids w' ≡ ids w
      pub queue : w'.incoming ≡ w.incoming
      pub same_sockets : w'.sockets ≡ w.sockets

    put_at-ids :
        (a : ℕ) (c : Connection) (w : Worker S) (b : ℕ)
        → c.id ≡ (w.objects a).id
        → (put_at a c w.objects b).id ≡ (w.objects b).id
    unfolding put_at
    put_at-ids a c w b same = elim (Bool-cases (nat_eq b a)) [
      | inl there ↦ let e : b ≡ a = ground arith in rw there (same ∙ ap (ids w) (sym e))
      | inr apart ↦ rw apart
    ]

    register_one-Registered :
        (user : Callbacks) (a : ℕ) (w : Worker S)
        → Welcomes user
        → IsValid w.pool
        → (w.pool.ht0.used + w.pool.ht1.used) * 2 ≤ most_buckets
        → Returns (register_one user (some a) w) (λ w'.
          Registered (a ∷ []) w w'
          × (w'.pool.ht0.used + w'.pool.ht1.used ≤ w.pool.ht0.used + w.pool.ht1.used + 1))
    unfolding register_one
    register_one-Registered user a w welcomes valid small =
        let (c, called, n) = welcomes (w.objects a) in
        let (d, run, s) = subscript_set-Assigns load_factor none c.id (some a) w.pool valid small in
        (
          record w {
            objects = put_at a c w.objects;
            pool = d;
            epoll = w.epoll ++ epoll_add c.connfd c.events ∷ [];
          },
          rw (called, run),
          (
            record {
              valid = s.valid;
              views = λ q.
                  entered q d c.id s
                  ∙ ap (λ k. if q == k then some (some a) else view w.pool q) n.0;
              numbers = λ i b. put_at-ids a c w b n.0 i;
              queue = refl;
              same_sockets = refl;
            },
            omega (arith, s.added),
          ),
        )
      where
        entered :
            (q : ℕ) (d : Dict ℕ Pointer) (k : ℕ)
            → Assigns k (some a) w.pool d
            → view d q ≡ (if q == k then some (some a) else view w.pool q)
        entered q d k s = elim (Bool-cases (q == k)) [
          | inl there ↦ let e : q ≡ k = eq_of_equal there in rw there (ap (view d) e ∙ s.here)
          | inr apart ↦ rw apart (s.others q apart)
        ]

    Registered-∷ :
        (a : ℕ) (ps : List ℕ) (w w₁ w' : Worker S)
        → Registered (a ∷ []) w w₁
        → Registered ps w₁ w'
        → Registered (a ∷ ps) w w'
    Registered-∷ a ps w w₁ w' r s = record {
      valid = s.valid;
      views = λ q.
          s.views q
          ∙ ap (λ f. latest f ps q (view w₁.pool q)) r.numbers
          ∙ ap (latest (ids w) ps q) (r.views q);
      numbers = s.numbers ∙ r.numbers;
      queue = s.queue ∙ r.queue;
      same_sockets = s.same_sockets ∙ r.same_sockets;
    }

    register_loop-Registered :
        (user : Callbacks) (ps : List ℕ) (w : Worker S)
        → Welcomes user
        → IsValid w.pool
        → (w.pool.ht0.used + w.pool.ht1.used + length ps) * 2 ≤ most_buckets
        → Returns (register_loop user (map some ps) w) (Registered ps w)
    unfolding register_loop
    register_loop-Registered user [] w welcomes valid small = (
      w,
      refl,
      record {
        valid = valid;
        views = λ q. refl;
        numbers = refl;
        queue = refl;
        same_sockets = refl;
      },
    )
    register_loop-Registered user (a ∷ ps) w welcomes valid small =
        let (w₁, run, (r, more)) = register_one-Registered user a w welcomes valid (omega arith) in
        let (w', rest, s) =
          register_loop-Registered user ps w₁ welcomes r.valid (omega (arith, more)) in
        (
          w',
          ap (λ x. x >>= register_loop user (map some ps)) run ∙ rest,
          Registered-∷ a ps w w₁ w' r s,
        )

    -- Where the connection callback returns and keeps numbers and descriptors, the queue has no null
    -- pointer, and the pool is valid and, with the queue, at most 2^30 long: registering
    -- returns, the queue is empty, each number is mapped to the last connection of the queue that has
    -- it, and a number of none of them to what it was; no connection changes its number, and no socket
    -- is touched.
    pub register_incoming-Registered :
        (user : Callbacks) (ps : List ℕ) (w : Worker S)
        → w.incoming ≡ map some ps
        → Welcomes user
        → IsValid w.pool
        → (w.pool.ht0.used + w.pool.ht1.used + length ps) * 2 ≤ most_buckets
        → Returns (register_incoming user w) (Registered ps (record w { incoming = [] }))
    unfolding register_incoming
    register_incoming-Registered user ps w queued welcomes valid small =
        let (w', run, r) =
          register_loop-Registered user ps (record w { incoming = [] }) welcomes valid small in
        (w', ap (λ queue. register_loop user queue (record w { incoming = [] })) queued ∙ run, r)
