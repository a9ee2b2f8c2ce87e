-- ===== src/Server/Serving.antt =====
-- tcpServer.cpp: the start of the workers, `newConnection`, and what the server does between two
-- rounds of the acceptor. The hash of an address, the results of `rand()`, the clock, the sizes of the
-- process and the places of new objects are parameters.
use mathlib.Core.List.{map}
use yeyj_tcp_server.Base.{
  ℕ, zero, suc, ◌+◌, ◌*◌, ◌/◌, ◌%◌, ◌^◌, Bool, true, ◌||◌, ltb, leb, ◌==◌, if◌then◌else◌, Option,
  none, some, List, [], ◌∷◌, ◌++◌, ℤ, pos, negsuc, sub_ℕ, set, Run, ok, fault, uninitialised,
  assertion, out_of_range, division_by_zero, empty_function, ◌>>=◌, at,
}
use yeyj_tcp_server.Buffer.{c_string}
use yeyj_tcp_server.Connection.{Connection, new_connection as new_tcp_connection}
use yeyj_tcp_server.HashTable.Table.{new}
use yeyj_tcp_server.Logging.{AsyncLogging, Line, append}
use yeyj_tcp_server.Server.Balance.{
  load_balance_round_robin, load_balance_random, load_balance_min_connection, load_balance_ip_hash,
}
use yeyj_tcp_server.Server.Config.{
  Config, LoadBalance, round_robin, random_worker, min_connection, ip_hash,
}
use yeyj_tcp_server.Text.{decimal}
use yeyj_tcp_server.Worker.{
  Worker, above, put_at, get_connection_num, set_max_connection, register_new_connection,
}

-- The server with its settings, `_threadPool`, the static `index` of the round robin, the static
-- `id` of `newConnection`, and `_exceedMaxMemory`.
pub record Server (S : Type 0) : Type 0 where
  pub config : Config
  pub thread_pool : List (Worker S)
  pub round_index : ℕ
  pub last_id : ℕ
  pub exceed_max_memory : Bool

-- A member of type `int` that must have been set.
unfoldable pub setting : Option ℤ → Run ℤ
setting none = fault uninitialised
setting (some z) = ok z

-- `z / n`, which cuts towards zero.
unfoldable pub div_int : ℤ → ℕ → Run ℤ
div_int z zero = fault division_by_zero
div_int (pos m) (suc n) = ok (pos (m / suc n))
div_int (negsuc m) (suc n) = ok (sub_ℕ 0 ((m + 1) / suc n))

-- `std::min(a, b)`, and 1 in place of what is not above zero.
unfoldable pub least_positive : ℤ → ℤ → ℕ
least_positive (pos a) (pos b) =
    if ltb b a then (if b == 0 then 1 else b) else if a == 0 then 1 else a
least_positive (negsuc a) b = 1
least_positive (pos a) (negsuc b) = 1

-- The bound on the events of a worker, for `n` workers.
unfoldable pub max_connection : Config → ℕ → Run ℕ
unfolding setting div_int least_positive
max_connection g n = do
  per_worker ← setting g.max_tcp_per_worker
  max_tcp ← setting g.max_tcp
  share ← div_int max_tcp n
  ok (least_positive per_worker share)

-- A worker as `new Worker(this)` makes it.
abbrev pub new_worker : {S : Type 0} → (ℕ → Connection) → (ℕ → S) → Worker S
new_worker objects sockets = record {
  max_connection = none;
  incoming = [];
  pool = new;
  objects = objects;
  sockets = sockets;
  epoll = [];
}

-- The loop of `start` from `i` on: the worker that is made is put at the end, and the bound set in
-- the one at `i`.
unfoldable pub start_loop :
    {S : Type 0} → ℕ → ℕ → ℕ → Worker S → List (Worker S) → Run (List (Worker S))
unfolding set_max_connection
start_loop zero i bound fresh pool = ok pool
start_loop (suc rounds) i bound fresh pool = do
  w ← at (pool ++ fresh ∷ []) i
  start_loop rounds (i + 1) bound fresh (set (pool ++ fresh ∷ []) i (set_max_connection bound w))

-- `start`, up to the start of the acceptor; `fresh` is a worker as the constructor makes it.
unfoldable pub start : {S : Type 0} → Worker S → ℕ → Server S → Run (Server S)
unfolding max_connection start_loop
start fresh n s = do
  bound ← max_connection s.config n
  pool ← start_loop n 0 bound fresh s.thread_pool
  ok (record s { thread_pool = pool })

-- The rule that `_loadBalance` holds: the worker, and the static index afterwards. `hash` is the hash
-- of the address, and `r` a result of `rand()`.
unfoldable pub pick : LoadBalance → ℕ → ℕ → ℕ → List ℕ → Run (ℕ × ℕ)
pick round_robin hash r index nums = load_balance_round_robin nums index
pick random_worker hash r index nums = do i ← load_balance_random nums r; ok (i, index)
pick min_connection hash r index nums = do i ← load_balance_min_connection nums; ok (i, index)
pick ip_hash hash r index nums = do i ← load_balance_ip_hash nums hash; ok (i, index)

-- A call of `_loadBalance`, which throws where no rule was set.
unfoldable pub load_balance : {S : Type 0} → ℕ → ℕ → Server S → Run (ℕ × ℕ)
unfolding pick
load_balance hash r s = elim s.config.load_balance [
  | none ↦ fault empty_function
  | some rule ↦ pick rule hash r s.round_index (map get_connection_num s.thread_pool)
]

-- The sizes of a buffer as its constructor takes them: `new char[n]` throws where `n` is below zero,
-- behind the assert that the first size is not above the largest.
unfoldable pub buffer_sizes : Option ℤ → Option ℤ → Run (ℕ × ℕ)
buffer_sizes none largest = fault uninitialised
buffer_sizes (some init) none = fault uninitialised
buffer_sizes (some (pos i)) (some (pos m)) = ok (i, m)
buffer_sizes (some (pos i)) (some (negsuc m)) = fault assertion
buffer_sizes (some (negsuc i)) (some (pos m)) = fault out_of_range
buffer_sizes (some (negsuc i)) (some (negsuc m)) =
    if leb m i then fault out_of_range else fault assertion

-- `newConnection`: the connection is made at the address `place`, and queued at the worker that the
-- rule picks.
unfoldable pub new_connection : {S : Type 0} → ℕ → ℕ → ℕ → ℕ → ℕ → ℕ → ℕ → Server S → Run (Server S)
unfolding load_balance buffer_sizes
new_connection hash r place fd ip port now s = do
  (i, index) ← load_balance hash r s
  (read_init, read_max) ← buffer_sizes s.config.read_buffer_init_size s.config.read_buffer_max_size
  (write_init, write_max) ←
      buffer_sizes s.config.write_buffer_init_size s.config.write_buffer_max_size
  let id = (s.last_id + 1) % 2 ^ 64
  c ←
      new_tcp_connection id fd ip port
        (record {
          read_init = read_init;
          read_max = read_max;
          write_init = write_init;
          write_max = write_max;
        })
        now
  w ← at s.thread_pool i
  let w' = register_new_connection (some place) (record w { objects = put_at place c w.objects })
  ok (record s { thread_pool = set s.thread_pool i w'; round_index = index; last_id = id })

-- `bytes / 1024.0 > z`.
unfoldable pub above_kb : ℕ → ℤ → Bool
above_kb bytes (pos m) = ltb (m * 1024) bytes
above_kb bytes (negsuc m) = true

-- `checkMaxMemory`, where the process has `vm` bytes of memory and `rss` KB of it resident.
unfoldable pub check_max_memory : {S : Type 0} → ℕ → ℕ → Server S → Run (Server S)
unfolding above above_kb setting
check_max_memory vm rss s = do
  max_vm ← setting s.config.max_vm_kb
  max_rss ← setting s.config.max_rss_kb
  ok (record s { exceed_max_memory = above_kb vm max_vm || above rss max_rss })

-- `log`: the line of a message, with the last 32 bits of the number of the thread, and the address in its four bytes.
unfoldable pub log_line : Line → ℕ → Line → Line → ℕ → ℕ → Line → Line
unfolding c_string
log_line level thread name time ip port msg =
    c_string level
    ++ b' ' ∷ decimal (thread % 2 ^ 32)
    ++ b' ' ∷ c_string name
    ++ b' ' ∷ c_string time
    ++ b' ' ∷ decimal (ip % 256)
    ++ b'.' ∷ decimal (ip / 2 ^ 8 % 256)
    ++ b'.' ∷ decimal (ip / 2 ^ 16 % 256)
    ++ b'.' ∷ decimal (ip / 2 ^ 24 % 256)
    ++ b':' ∷ decimal port
    ++ b' ' ∷ c_string msg

unfoldable pub log : Line → ℕ → Line → Line → ℕ → ℕ → Line → AsyncLogging → AsyncLogging × Bool
unfolding log_line append
log level thread name time ip port msg logger =
    append logger (log_line level thread name time ip port msg)
