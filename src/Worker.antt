-- ===== src/Worker.antt =====
-- The class `Worker` of worker.h and worker.cpp: the loop of a worker thread over its connections. A
-- `TcpConnectionPtr` is an address, `none` the null pointer; `epoll_wait`, the clock, the results of
-- `random()`, the sockets and the callbacks are parameters. Output to the terminal is not modelled.
pub mod Pool
pub mod Registering
pub mod Names
pub mod Visiting
pub mod Handling
pub mod Evicting
pub mod Service
pub mod Tending
pub mod Welcoming
pub mod Leaving
pub mod Culling
pub mod Tended
pub mod Rounds
use yeyj_tcp_server.Base.{
  as_int, ℕ, zero, suc, ◌+◌, ◌-◌, ◌^◌, Bool, true, false, not, ◌&&◌, ◌||◌, ltb, ◌==◌ as nat_eq,
  if◌then◌else◌, Option, none, some, List, [], ◌∷◌, ◌++◌, ℤ, pos, negsuc, Run, ok, fault, take,
  uninitialised, null_pointer, ◌>>=◌,
}
use yeyj_tcp_server.Connection.{
  Connection, Events, Callbacks, Socket, invoke, on_readable_event, on_writable_event,
}
use yeyj_tcp_server.HashTable.Chains.{Key}
use yeyj_tcp_server.HashTable.Methods.{erase, subscript_get, subscript_set}
use yeyj_tcp_server.HashTable.Random.{get_random_value}
use yeyj_tcp_server.HashTable.Table.{Dict, size, empty}
use yeyj_tcp_server.Server.Config.{
  MaxTcpEviction, max_tcp_none, max_tcp_random, max_tcp_inactive, InactiveEviction, inactive_none,
  inactive_close,
}

abbrev pub Pointer : Type 0
Pointer = Option ℕ

-- The calls of `epoll_ctl`: EPOLL_CTL_ADD and EPOLL_CTL_DEL with the descriptor.
pub data EpollCall : Type 0 where
  epoll_add : ℕ → Events → EpollCall
  epoll_del : ℕ → EpollCall

-- An event of `epoll_wait`: its flags, and the number of the connection in `data.u64`.
pub record Event : Type 0 where
  pub error : Bool
  pub hangup : Bool
  pub readable : Bool
  pub writable : Bool
  pub id : ℕ

-- The worker, with the objects that its pointers stand for, the sockets by their descriptors, and
-- the calls of `epoll_ctl` so far. `_maxConnection` has no value before `setMaxConnection`.
pub record Worker (S : Type 0) : Type 0 where
  pub max_connection : Option ℕ
  pub incoming : List Pointer
  pub pool : Dict ℕ Pointer
  pub objects : ℕ → Connection
  pub sockets : ℕ → S
  pub epoll : List EpollCall

-- What the worker asks of the server; `none` is a rule with a number that the code does not know.
pub record Master : Type 0 where
  pub max_tcp_per_worker : ℤ
  pub exceed_max_memory : Bool
  pub max_tcp_eviction_rule : Option MaxTcpEviction
  pub inactive_tcp_eviction_rule : Option InactiveEviction
  pub inactive_tcp_timeout : ℤ
  pub eviction_pool_size : ℤ

-- `n > z` on `int`, and the number of rounds of `for(int i = 0; i < z; ++i)`.
unfoldable pub above : ℕ → ℤ → Bool
above n (pos m) = ltb m n
above n (negsuc m) = true

unfoldable pub rounds_of : ℤ → ℕ
rounds_of (pos n) = n
rounds_of (negsuc n) = 0

-- `y > z` on `int`, where `y` may be below zero.
unfoldable pub above_int : ℤ → ℤ → Bool
unfolding above
above_int (pos n) z = above n z
above_int (negsuc n) (pos m) = false
above_int (negsuc n) (negsuc m) = ltb n m

-- `std::min(y, z)`.
unfoldable pub min_int : ℤ → ℤ → ℤ
min_int (pos n) (pos m) = if ltb m n then pos m else pos n
min_int (pos n) (negsuc m) = negsuc m
min_int (negsuc n) (pos m) = negsuc n
min_int (negsuc n) (negsuc m) = if ltb n m then negsuc m else negsuc n

-- A function at one more place.
unfoldable pub put_at {ℓ} : {A : Type ℓ} → ℕ → A → (ℕ → A) → ℕ → A
put_at a x f b = if nat_eq b a then x else f b

-- The number that stands for no connection.
abbrev pub no_id : ℕ
no_id = 2 ^ 64 - 1

unfoldable pub set_max_connection : {S : Type 0} → ℕ → Worker S → Worker S
set_max_connection n w = record w { max_connection = some n }

unfoldable pub get_connection_num : {S : Type 0} → Worker S → ℕ
unfolding size
get_connection_num w = size w.pool

-- `registerNewConnection(conn)`, which other threads call under the mutex.
unfoldable pub register_new_connection : {S : Type 0} → Pointer → Worker S → Worker S
register_new_connection p w = record w { incoming = w.incoming ++ p ∷ [] }

-- `conn->`, which is undefined on a null pointer.
unfoldable pub deref : {S : Type 0} → Pointer → Worker S → Run Connection
deref none w = fault null_pointer
deref (some a) w = ok (w.objects a)

-- The default load factor of the dictionary, after which it grows even where it may not be resized.
abbrev pub load_factor : ℕ
load_factor = 5

module _ ⦃key : Key ℕ⦄ where
  unfoldable pub remove_connection : {S : Type 0} → Pointer → Worker S → Run (Worker S)
  unfolding deref
  remove_connection p w = do
    c ← deref p w
    d ← erase c.id w.pool
    ok (record w { pool = d; epoll = w.epoll ++ epoll_del c.connfd ∷ [] })

  -- `conn->onConnection()`, EPOLL_CTL_ADD, and `_connectionPool[conn->getId()] = conn`.
  unfoldable pub register_one : {S : Type 0} → Callbacks → Pointer → Worker S → Run (Worker S)
  unfolding invoke
  register_one user none w = fault null_pointer
  register_one user (some a) w = do
    c ← invoke user.on_connection (w.objects a)
    d ← subscript_set load_factor none c.id (some a) w.pool
    ok (record w {
      objects = put_at a c w.objects;
      pool = d;
      epoll = w.epoll ++ epoll_add c.connfd c.events ∷ [];
    })

  unfoldable pub register_loop : {S : Type 0} → Callbacks → List Pointer → Worker S → Run (Worker S)
  register_loop user [] w = ok w
  register_loop user (p ∷ ps) w = do w' ← register_one user p w; register_loop user ps w'

  -- `registerNewConnection()` of the worker itself: the queue is swapped with an empty one.
  unfoldable pub register_incoming : {S : Type 0} → Callbacks → Worker S → Run (Worker S)
  register_incoming user w = register_loop user w.incoming (record w { incoming = [] })

  -- `currentTime - conn->getLastActiveTime()` counts only where it is above a time that is not
  -- negative, so the difference may stop at 0.
  unfoldable pub choose : ℕ → Connection → ℕ × ℕ → ℕ × ℕ
  choose now c (most_id, most_time) =
      if ltb most_time (now - c.last_active_time)
      then (c.id, now - c.last_active_time)
      else (most_id, most_time)

  -- The loop of `evictRandomN`: `best` is `mostInactiveId` and `mostInactiveTime`. The result is
  -- `none` where the pool is empty, which ends the function. `draws n` holds the results of
  -- `random()` for the round that `n` rounds follow.
  unfoldable pub evict_scan :
      {S : Type 0} → ℕ → (ℕ → List ℕ) → ℕ → ℕ × ℕ → Worker S → Run (Option (ℕ × ℕ) × Worker S)
  unfolding choose
  evict_scan zero draws now best w = ok (some best, w)
  evict_scan (suc n) draws now best w =
      let round = (do
        (p, d) ← get_random_value (draws n) w.pool
        c ← deref p w
        w' ←
            if c.closed
            then remove_connection p (record w { pool = d })
            else ok (record w { pool = d })
        evict_scan n draws now (choose now c best) w') in
      if empty w.pool then ok (none, w) else round

  -- What `evictRandomN` does behind its loop.
  unfoldable pub evict_most : {S : Type 0} → Master → Bool → ℕ × ℕ → Worker S → Run (Worker S)
  unfolding above
  evict_most m force (most_id, most_time) w =
      let remove = (do
        (p, d) ← subscript_get load_factor none most_id w.pool
        remove_connection p (record w { pool = d })) in
      if not (nat_eq most_id no_id) && (force || above most_time m.inactive_tcp_timeout)
      then remove
      else ok w

  unfoldable pub evict_random_n :
      {S : Type 0} → Master → (ℕ → List ℕ) → ℕ → ℤ → Bool → Worker S → Run (Worker S)
  unfolding rounds_of
  evict_random_n m draws now n force w =
      let run = (do
        (found, w') ← evict_scan (rounds_of n) draws now (no_id, 0) w
        elim found [ none ↦ ok w' | some best ↦ evict_most m force best w' ]) in
      if nat_eq (rounds_of n) 0 then ok w else run

  unfoldable pub eviction : {S : Type 0} → Master → (ℕ → List ℕ) → ℕ → Worker S → Run (Worker S)
  unfolding min_int
  eviction m draws now w = elim m.max_tcp_eviction_rule [
    | none ↦ ok w
    | some rule ↦ elim rule [
      | max_tcp_none ↦ ok w
      | max_tcp_random ↦ do
        (p, d) ← get_random_value (draws 0) w.pool
        remove_connection p (record w { pool = d })
      | max_tcp_inactive ↦
          evict_random_n m draws now (min_int (as_int (size w.pool)) m.eviction_pool_size) true w
    ]
  ]

  -- Any rule but `none` evicts, a number that the code does not know included.
  unfoldable pub manage_inactive_connection :
      {S : Type 0} → Master → (ℕ → List ℕ) → ℕ → Worker S → Run (Worker S)
  manage_inactive_connection m draws now w = elim m.inactive_tcp_eviction_rule [
    | some inactive_none ↦ ok w
    | some inactive_close ↦ evict_random_n m draws now m.eviction_pool_size false w
    | none ↦ evict_random_n m draws now m.eviction_pool_size false w
  ]

  module _ (net : Socket) where
    open net use {S}

    -- `conn->onReadableEvent()` and `conn->onWritableEvent()`.
    unfoldable pub readable_at : Callbacks → ℕ → Pointer → Worker S → Run (Worker S)
    readable_at user now none w = fault null_pointer
    readable_at user now (some a) w = do
      let fd = (w.objects a).connfd
      (c, s) ← on_readable_event net user now (w.objects a) (w.sockets fd)
      ok (record w { objects = put_at a c w.objects; sockets = put_at fd s w.sockets })

    unfoldable pub writable_at : ℕ → Pointer → Worker S → Run (Worker S)
    writable_at now none w = fault null_pointer
    writable_at now (some a) w = do
      let fd = (w.objects a).connfd
      (c, s) ← on_writable_event net now (w.objects a) (w.sockets fd)
      ok (record w { objects = put_at a c w.objects; sockets = put_at fd s w.sockets })

    -- On EPOLLERR or EPOLLHUP the descriptor is taken from epoll here and in `removeConnection`.
    unfoldable pub drop_broken : Pointer → Worker S → Run (Worker S)
    drop_broken p w = do
      c ← deref p w
      remove_connection p (record w { epoll = w.epoll ++ epoll_del c.connfd ∷ [] })

    -- The body of the loop over the events, where the clock shows `now`.
    unfoldable pub handle_event : Callbacks → ℕ → Event → Worker S → Run (Worker S)
    unfolding drop_broken readable_at writable_at
    handle_event user now e w = do
      (p, d) ← subscript_get load_factor none e.id w.pool
      let w₀ = record w { pool = d }
      w₁ ← if e.error || e.hangup then drop_broken p w₀ else ok w₀
      w₂ ← if e.readable then readable_at user now p w₁ else ok w₁
      w₃ ← if e.writable then writable_at now p w₂ else ok w₂
      c ← deref p w₃
      if c.closed then remove_connection p w₃ else ok w₃

    -- The events in their order, each with the time at which it is handled.
    unfoldable pub handle_events : Callbacks → List (ℕ × Event) → Worker S → Run (Worker S)
    handle_events user [] w = ok w
    handle_events user ((now, e) ∷ es) w = do
      w' ← handle_event user now e w
      handle_events user es w'

    -- A round of `while(true)` in `workFunction`, where the events `es` wait, of which `epoll_wait`
    -- gives as many as it is asked for;
    -- `draws` and `draws'` are the results of `random()` in the two evictions.
    unfoldable pub work_round :
        Callbacks
        → Master
        → (ℕ → List ℕ)
        → (ℕ → List ℕ)
        → ℕ
        → List (ℕ × Event)
        → Worker S
        → Run (Worker S)
    work_round user m draws draws' now es w = do
      w₁ ← elim w.max_connection [
        | none ↦ fault uninitialised
        | some bound ↦ handle_events user (take bound es) w
      ]
      w₂ ← register_incoming user w₁
      w₃ ← manage_inactive_connection m draws now w₂
      if above_int (as_int (size w₃.pool)) m.max_tcp_per_worker || m.exceed_max_memory
          then eviction m draws' now w₃
          else ok w₃
