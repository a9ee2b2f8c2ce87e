-- ===== src/Server/Accepting.antt =====
-- The acceptor's loop over `newConnection`: every connection that it accepts waits at some worker.
use mathlib.Core.List.{map}
use mathlib.Core.Path.{subst}
use yeyj_tcp_server.Acceptor.{Accept, accepted, would_block, accept_loop}
use yeyj_tcp_server.Base.{
  ℕ, zero, suc, ◌+◌, ◌^◌, ◌≤◌, ◌<◌, ◌≡◌, ◌≢◌, refl, sym, ap, ◌∙◌, arith, List, [], ◌∷◌, ◌++◌,
  length, length-append, get_or, int_max, Run, ◌>>=◌, Returns, some,
}
use yeyj_tcp_server.Server.Queueing.{CanServe, Queued, new_connection-Queued}
use yeyj_tcp_server.Server.Serving.{Server, new_connection}
use yeyj_tcp_server.Worker.{Worker, Pointer}

-- A connection that `accept` gives: its descriptor and address, and what the model takes as given on
-- the way to a worker.
pub record Arrival : Type 0 where
  pub fd : ℕ
  pub ip : ℕ
  pub port : ℕ
  pub hash : ℕ
  pub draw : ℕ
  pub place : ℕ
  pub now : ℕ

-- The function that the constructor of the server binds to the acceptor.
abbrev pub connect : {S : Type 0} → Arrival → Server S → Run (Server S)
connect a s = new_connection a.hash a.draw a.place a.fd a.ip a.port a.now s

module _ {S : Type 0} where
  -- The number of connections that wait to be registered.
  abbrev pub waiting : List (Worker S) → ℕ
  waiting [] = 0
  waiting (w ∷ ws) = length w.incoming + waiting ws

  waiting_same :
      (blank : Worker S) (xs ys : List (Worker S))
      → length ys ≡ length xs
      → ((k : ℕ) → get_or ys k blank ≡ get_or xs k blank)
      → waiting ys ≡ waiting xs
  waiting_same blank [] [] same h = refl
  waiting_same blank [] (y ∷ ys) same h = absurd (omega arith)
  waiting_same blank (x ∷ xs) [] same h = absurd (omega arith)
  waiting_same blank (x ∷ xs) (y ∷ ys) same h =
      let here : length y.incoming ≡ length x.incoming =
        ap (λ (w : Worker S). length w.incoming) (h 0) in
      omega (arith, here, waiting_same blank xs ys (omega arith) (λ k. h (suc k)))

  waiting_more :
      (blank : Worker S) (p : Pointer) (i : ℕ) (xs ys : List (Worker S))
      → length ys ≡ length xs
      → i < length xs
      → (get_or ys i blank).incoming ≡ (get_or xs i blank).incoming ++ p ∷ []
      → ((k : ℕ) → i ≢ k → get_or ys k blank ≡ get_or xs k blank)
      → waiting ys ≡ waiting xs + 1
  waiting_more blank p i [] ys same inside more h = absurd (omega arith)
  waiting_more blank p i (x ∷ xs) [] same inside more h = absurd (omega arith)
  waiting_more blank p zero (x ∷ xs) (y ∷ ys) same inside more h =
      let here : length y.incoming ≡ length (x.incoming ++ p ∷ []) = ap length more in
      omega (
        arith,
        here,
        length-append x.incoming (p ∷ []),
        waiting_same blank xs ys (omega arith) (λ k. h (suc k) (λ e. absurd (omega arith))),
      )
  waiting_more blank p (suc i) (x ∷ xs) (y ∷ ys) same inside more h =
      let here : length y.incoming ≡ length x.incoming =
        ap (λ (w : Worker S). length w.incoming) (h 0 (λ e. absurd (omega arith))) in
      omega (
        arith,
        here,
        waiting_more blank p i xs ys (omega arith) (omega arith) more
            (λ k ne. h (suc k) (λ e. ne (omega arith))),
      )

  -- The connections have been handed out one after the other, each of them with the next number, at
  -- the end of the queue of one worker, the other workers untouched.
  pub data Hands (blank : Worker S) : List Arrival → Server S → Server S → Type 0 where
    nobody : (s : Server S) → Hands blank [] s s
    one_more :
        (a : Arrival) (arrivals : List Arrival) (s s₁ s' : Server S)
        → Queued a.place blank s s₁
        → s₁.last_id ≡ s.last_id + 1
        → Hands blank arrivals s₁ s'
        → Hands blank (a ∷ arrivals) s s'

  -- The connections have been handed out; so many more wait, and have taken the next numbers.
  pub record Served (blank : Worker S) (arrivals : List Arrival) (s s' : Server S) : Type 0 where
    pub handed : Hands blank arrivals s s'
    pub wait : waiting s'.thread_pool ≡ waiting s.thread_pool + length arrivals
    pub numbers : s'.last_id ≡ s.last_id + length arrivals
    pub same_workers : length s'.thread_pool ≡ length s.thread_pool
    pub same_config : s'.config ≡ s.config

  -- Where there is a worker, the settings that `newConnection` reads are set, with the sizes of the
  -- buffers not below zero and in order, and neither the numbers nor the index of the round robin
  -- reach the end of their range: the acceptor's loop returns at the first error of those that end it,
  -- whatever the rule, and has handed out the connections before that one after the other, each made
  -- with the next number and queued behind the others at one worker.
  pub accept_loop-Served :
      (arrivals : List Arrival) (rest : List (Accept Arrival)) (blank : Worker S) (s : Server S)
      → 0 < length s.thread_pool
      → CanServe s.config
      → s.round_index + length arrivals ≤ int_max
      → s.last_id + length arrivals < 2 ^ 64
      → Returns
          (accept_loop connect (map accepted arrivals ++ would_block ∷ rest) s)
          (Served blank arrivals s)
  unfolding accept_loop
  accept_loop-Served [] rest blank s some_worker can room fresh_ids = (
    s,
    refl,
    record {
      handed = nobody s;
      wait = omega arith;
      numbers = omega arith;
      same_workers = refl;
      same_config = refl;
    },
  )
  accept_loop-Served (a ∷ arrivals) rest blank s some_worker can room fresh_ids =
      let (s₁, run, q) =
        new_connection-Queued a.hash a.draw a.place a.fd a.ip a.port a.now blank s some_worker can
          (omega arith) in
      let next : s₁.last_id ≡ s.last_id + 1 = omega (arith, q.next_id) in
      let (s', runs, r) =
        accept_loop-Served arrivals rest blank s₁ (omega (arith, q.same_workers))
          (subst CanServe (sym q.same_config) can) (omega (arith, q.index_grows))
          (omega (arith, next)) in
      (
        s',
        ap (λ x. x >>= accept_loop connect (map accepted arrivals ++ would_block ∷ rest)) run
            ∙ runs,
        record {
          handed = one_more a arrivals s s₁ s' q next r.handed;
          wait = omega (
            arith,
            r.wait,
            waiting_more blank (some a.place) q.worker s.thread_pool s₁.thread_pool q.same_workers
                q.inside q.queue q.others,
          );
          numbers = omega (arith, r.numbers, next);
          same_workers = r.same_workers ∙ q.same_workers;
          same_config = r.same_config ∙ q.same_config;
        },
      )
