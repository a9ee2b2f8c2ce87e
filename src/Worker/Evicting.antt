-- ===== src/Worker/Evicting.antt =====
-- The evictions of a worker, and the null pointers that they may dereference.
use yeyj_tcp_server.Base.{
  as_int, ℕ, zero, suc, ◌+◌, ◌-◌, ◌*◌, ◌≤◌, ◌<◌, ◌≡◌, ◌≢◌, refl, sym, ap, ◌∙◌, arith, Bool, true,
  false, ◌||◌, ltb, if◌then◌else◌, Option, none, some, List, [], ◌∷◌, ◌++◌, Run, ok, take, fault,
  null_pointer, ◌==◌ as nat_eq, ℤ, pos, negsuc,
}
use yeyj_tcp_server.Connection.{Callbacks, Socket}
use yeyj_tcp_server.HashTable.Chains.{Key}
use yeyj_tcp_server.HashTable.Random.{get_random_entry, get_random_value}
use yeyj_tcp_server.HashTable.Table.{Dict, most_buckets, size, empty}
use yeyj_tcp_server.HashTable.Valid.{view, IsValid}
use yeyj_tcp_server.Server.Config.{max_tcp_random, InactiveEviction, inactive_none, inactive_close}
use yeyj_tcp_server.Worker.Pool.{subscript_get_missing, remove_connection-Leaves}
use yeyj_tcp_server.Worker.{
  Event, Worker, Master, Pointer, epoll_del, above, above_int, rounds_of, choose, no_id, deref,
  remove_connection, evict_scan, evict_most, evict_random_n, eviction, manage_inactive_connection,
  handle_events, register_loop, register_incoming, work_round,
}

module _ ⦃key : Key ℕ⦄ {S : Type 0} where
  evict_most_missing :
      (m : Master) (force : Bool) (k t : ℕ) (w : Worker S)
      → IsValid w.pool
      → (w.pool.ht0.used + w.pool.ht1.used) * 2 ≤ most_buckets
      → view w.pool k ≡ none
      → k ≢ no_id
      → (force || above t m.inactive_tcp_timeout) ≡ true
      → evict_most m force (k, t) w ≡ fault null_pointer
  unfolding evict_most remove_connection deref
  evict_most_missing m force k t w valid small missing known due =
      let (d, run) = subscript_get_missing k w.pool valid small missing in
      let test : nat_eq k no_id ≡ false = ground arith in rw (test, due, run)

  -- `evictRandomN` of one connection that is closed and was inactive for a second or more (where not
  -- forced, for longer than the timeout) takes it from the pool, and then once more by its number,
  -- for which the dictionary makes up a null pointer: this ends the process.
  pub evict_closed :
      (m : Master) (draws : ℕ → List ℕ) (now : ℕ) (force : Bool) (a : ℕ) (d : Dict ℕ Pointer)
      (w : Worker S)
      → empty w.pool ≡ false
      → get_random_value (draws 0) w.pool ≡ ok (some a, d)
      → IsValid d
      → (d.ht0.used + d.ht1.used) * 2 ≤ most_buckets
      → (w.objects a).closed ≡ true
      → (w.objects a).last_active_time < now
      → (w.objects a).id ≢ no_id
      → (force || above (now - (w.objects a).last_active_time) m.inactive_tcp_timeout) ≡ true
      → evict_random_n m draws now (pos 1) force w ≡ fault null_pointer
  unfolding evict_random_n evict_scan rounds_of choose deref
  evict_closed m draws now force a d w filled drawn valid small closed idle known due =
      let c = w.objects a in
      let (d', run, r) = remove_connection-Leaves a (record w { pool = d }) valid in
      let longer : ltb 0 (now - c.last_active_time) ≡ true = ground arith in
      let rest =
        evict_most_missing m force c.id (now - c.last_active_time)
          (record w { pool = d'; epoll = w.epoll ++ epoll_del c.connfd ∷ [] }) r.valid
          (omega (arith, r.fewer)) r.absent known due in
      rw (filled, drawn, closed, run, longer, rest)

  module _ (w : Worker S) (blank : size w.pool ≡ 0) where
    is_empty : empty w.pool ≡ true
    unfolding empty
    is_empty = ground (arith, blank)

    evict_random_n_idle :
        (m : Master) (draws : ℕ → List ℕ) (now n : ℕ) (force : Bool)
        → evict_random_n m draws now (pos n) force w ≡ ok w
    unfolding evict_random_n evict_scan rounds_of
    evict_random_n_idle m draws now zero force = refl
    evict_random_n_idle m draws now (suc n) force =
        let some_rounds : nat_eq (suc n) 0 ≡ false = ground arith in rw (some_rounds, is_empty)

    manage_idle :
        (m : Master) (draws : ℕ → List ℕ) (now : ℕ)
        → manage_inactive_connection m draws now w ≡ ok w
    unfolding manage_inactive_connection evict_random_n rounds_of
    manage_idle m draws now = ruled m.inactive_tcp_eviction_rule (evicts m.eviction_pool_size)
      where
        evicts : (z : ℤ) → evict_random_n m draws now z false w ≡ ok w
        evicts (pos n) = evict_random_n_idle m draws now n false
        evicts (negsuc n) = refl

        ruled :
            (rule : Option InactiveEviction)
            → evict_random_n m draws now m.eviction_pool_size false w ≡ ok w
            → elim rule as (λ _. Run (Worker S)) [
              | some inactive_none ↦ ok w
              | some inactive_close ↦ evict_random_n m draws now m.eviction_pool_size false w
              | none ↦ evict_random_n m draws now m.eviction_pool_size false w
            ]
              ≡ ok w
        ruled (some inactive_none) h = refl
        ruled (some inactive_close) h = h
        ruled none h = h

    random_idle :
        (m : Master) (draws : ℕ → List ℕ) (now : ℕ)
        → m.max_tcp_eviction_rule ≡ some max_tcp_random
        → eviction m draws now w ≡ fault null_pointer
    unfolding eviction get_random_value get_random_entry
    random_idle m draws now rule =
        let none_there : nat_eq (size w.pool) 0 ≡ true = ground (arith, blank) in
        rw (rule, none_there)

none_taken : (n : ℕ) → take {A = ℕ × Event} n [] ≡ []
none_taken zero = refl
none_taken (suc n) = refl

-- A round of a worker whose bound is set, and that has no connection, no event and nothing queued, while the server is over
-- its memory limit and evicts at random: `getRandomEntry` of the empty pool is null, and is
-- dereferenced.
pub work_round_idle :
    ⦃key : Key ℕ⦄ (net : Socket) (user : Callbacks) (m : Master) (draws draws' : ℕ → List ℕ)
    (now bound : ℕ) (w : Worker net.S)
    → w.max_connection ≡ some bound
    → size w.pool ≡ 0
    → w.incoming ≡ []
    → m.exceed_max_memory ≡ true
    → m.max_tcp_eviction_rule ≡ some max_tcp_random
    → work_round net user m draws draws' now [] w ≡ fault null_pointer
unfolding work_round handle_events register_incoming register_loop
work_round_idle net user m draws draws' now bound w has_bound blank quiet over rule =
    let here : record w { incoming = [] } ≡ w = λ i. record w { incoming = sym quiet i } in
    let registered : register_incoming user w ≡ ok w =
      ap (λ ps. register_loop user ps (record w { incoming = [] })) quiet ∙ ap (λ x. ok x) here in
    rw (has_bound, none_taken bound, registered, manage_idle w blank m draws now)
      (taken (above_int (as_int (size w.pool)) m.max_tcp_per_worker) m.exceed_max_memory
        (eviction m draws' now w) over (random_idle w blank m draws' now rule))
  where
    taken :
        (b x : Bool) (r : Run (Worker net.S))
        → x ≡ true
        → r ≡ fault null_pointer
        → (if b || x then r else ok w) ≡ fault null_pointer
    taken true x r h e = e
    taken false x r h e = rw h e
