-- ===== src/Worker/Welcoming.antt =====
-- Registering the queue of a worker, where the callbacks fill the interface `Service`.
use mathlib.Core.List.{map}
use mathlib.Core.Path.{subst}
use yeyj_tcp_server.Base.{
  ℕ, ◌+◌, ◌*◌, ◌≤◌, ◌≡◌, ◌≢◌, refl, sym, ap, ◌∙◌, arith, none, some, List, [], ◌∷◌, ◌++◌,
  Bool-cases, inl, inr, length, Returns, ◌==◌ as nat_eq,
}
use yeyj_tcp_server.Connection.{Connection, Callbacks, Socket}
use yeyj_tcp_server.HashTable.Assigning.{Assigns}
use yeyj_tcp_server.HashTable.Chains.{Key, ◌==◌, eq_of_equal, equal_refl}
use yeyj_tcp_server.HashTable.Subscript.{subscript_set-Assigns}
use yeyj_tcp_server.HashTable.Table.{most_buckets}
use yeyj_tcp_server.HashTable.Valid.{view}
use yeyj_tcp_server.Worker.Pool.{put_at_self}
use yeyj_tcp_server.Worker.Service.{Service, IsOf, IsKept}
use yeyj_tcp_server.Worker.Tending.{put_at_other}
use yeyj_tcp_server.Worker.{
  Worker, Pointer, put_at, load_factor, epoll_add, register_one, register_loop, register_incoming,
}

-- `Q` holds of each address.
abbrev pub Each : (ℕ → Type 0) → List ℕ → Type 0
Each Q [] = Unit {0}
Each Q (a ∷ rest) = Q a × Each Q rest

pub Each-map : (Q R : ℕ → Type 0) (ps : List ℕ) → ((a : ℕ) → Q a → R a) → Each Q ps → Each R ps
Each-map Q R [] f all = tt
Each-map Q R (a ∷ ps) f (q, all) = (f a q, Each-map Q R ps f all)

module _ ⦃key : Key ℕ⦄ (net : Socket) (user : Callbacks) (P : Connection → Type 0)
    (service : Service net user P) where
  open net use {S}

  -- What registering leaves alone, and how far the pool grows: by `n` at most.
  pub record Grown (n : ℕ) (w w' : Worker S) : Type 0 where
    pub kept : IsKept P w'
    pub at_most : w'.pool.ht0.used + w'.pool.ht1.used ≤ w.pool.ht0.used + w.pool.ht1.used + n
    pub same_queue : w'.incoming ≡ w.incoming

  put_at-holds :
      (a b : ℕ) (c : Connection) (w : Worker S) → P c → P (w.objects b) → P (put_at a c w.objects b)
  put_at-holds a b c w new old = elim (Bool-cases (nat_eq b a)) [
    | inl here ↦
        let eq : b ≡ a = ground arith in
        subst (λ n. P (put_at a c w.objects n)) (sym eq)
          (subst P (sym (put_at_self a c w.objects)) new)
    | inr apart ↦ subst P (sym (put_at_other a c w.objects b (λ h. ground arith))) old
  ]

  welcomed :
      (a : ℕ) (c : Connection) (w w' : Worker S)
      → IsKept P w
      → c.id ≡ (w.objects a).id
      → P c
      → w'.objects ≡ put_at a c w.objects
      → Assigns c.id (some a) w.pool w'.pool
      → IsKept P w'
  welcomed a c w w' good named holds objects s = record {
    valid = s.valid;
    free = s.same_iterators ∙ good.free;
    kept = λ q p there. subst (λ f. IsOf P f q p) (sym objects) (kept_at q p there);
  }
    where
      kept_at : (q : ℕ) (p : Pointer) → view w'.pool q ≡ some p → IsOf P (put_at a c w.objects) q p
      kept_at q p there = elim (Bool-cases (q == c.id)) [
        | inl same ↦
            let eq : q ≡ c.id = eq_of_equal same in
            let is_a : some p ≡ some (some a) = sym there ∙ ap (view w'.pool) eq ∙ s.here in
            let at_a = put_at_self a c w.objects in
            (a, cc is_a, ap (λ (z : Connection). z.id) at_a ∙ sym eq, subst P (sym at_a) holds)
        | inr apart ↦
            let (x, is_x, named_x, was) = good.kept q p (sym (s.others q apart) ∙ there) in
            let ne : x ≢ a = λ h. absurd (
              cc (
                apart,
                ap (λ n. n == c.id) (sym named_x ∙ ap (λ z. (w.objects z).id) h ∙ sym named)
                    ∙ equal_refl c.id,
              )) in
            let same = put_at_other a c w.objects x ne in
            (x, is_x, ap (λ (z : Connection). z.id) same ∙ named_x, subst P (sym same) was)
      ]

  register_loop-Grown :
      (ps : List ℕ) (w : Worker S)
      → IsKept P w
      → Each (λ a. P (w.objects a)) ps
      → (w.pool.ht0.used + w.pool.ht1.used + length ps) * 2 ≤ most_buckets
      → Returns (register_loop user (map some ps) w) (Grown (length ps) w)
  unfolding register_loop register_one
  register_loop-Grown [] w good all small =
      (w, refl, record { kept = good; at_most = omega arith; same_queue = refl })
  register_loop-Grown (a ∷ ps) w good (holds, all) small =
      let (c, called, (n, welcome)) = service.welcomes (w.objects a) holds in
      let (d, set_it, s) =
        subscript_set-Assigns load_factor none c.id (some a) w.pool good.valid (omega arith) in
      let w₁ : Worker S = record w {
        objects = put_at a c w.objects;
        pool = d;
        epoll = w.epoll ++ epoll_add c.connfd c.events ∷ [];
      } in
      let good₁ = welcomed a c w w₁ good n.0 welcome refl s in
      let all₁ =
        Each-map (λ b. P (w.objects b)) (λ b. P (w₁.objects b)) ps
          (λ b old. put_at-holds a b c w welcome old) all in
      let (w', run, g) = register_loop-Grown ps w₁ good₁ all₁ (omega (arith, s.added)) in
      (
        w',
        rw (called, set_it) run,
        record {
          kept = g.kept;
          at_most = omega (arith, g.at_most, s.added);
          same_queue = g.same_queue;
        },
      )

  -- Where the callbacks serve `P`, the pool is kept, each queued pointer is to a connection with `P`,
  -- and the pool with the queue is at most 2^30 long, registering the queue returns; the
  -- pool is kept, has grown by the length of the queue at most, and the queue is empty.
  pub register_incoming-Grown :
      (ps : List ℕ) (w : Worker S)
      → w.incoming ≡ map some ps
      → IsKept P w
      → Each (λ a. P (w.objects a)) ps
      → (w.pool.ht0.used + w.pool.ht1.used + length ps) * 2 ≤ most_buckets
      → Returns (register_incoming user w) (Grown (length ps) (record w { incoming = [] }))
  unfolding register_incoming
  register_incoming-Grown ps w queued good all small =
      let w₀ : Worker S = record w { incoming = [] } in
      let good₀ : IsKept P w₀ = record { valid = good.valid; free = good.free; kept = good.kept } in
      let (w', run, g) = register_loop-Grown ps w₀ good₀ all small in
      (w', ap (λ queue. register_loop user queue w₀) queued ∙ run, g)
