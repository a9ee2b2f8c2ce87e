-- ===== src/Tests/Serving.antt =====
-- The start of the server, the acceptor's loop and the waiting of the log, at concrete inputs.
use mathlib.Core.List.{map}
use yeyj_tcp_server.Acceptor.{accepted, would_block, failed, accept_loop, accept_round}
use yeyj_tcp_server.Base.{
  replicate, none, ℕ, ◌+◌, ◌*◌, ◌≤◌, ◌<◌, ◌≡◌, refl, arith, Bool, true, false, List, [], ◌∷◌, ◌++◌,
  codes, Option, some, pos, Run, ok, fault, assertion, division_by_zero, ◌>>=◌, Returns, at,
  mod_int, add_int, assert,
}
use yeyj_tcp_server.Buffer.{c_string, new}
use yeyj_tcp_server.Connection.{new_connection as new_tcp_connection}
use yeyj_tcp_server.HashTable.Table.{size, new as new_table}
use yeyj_tcp_server.Server.Accepting.{Arrival, connect, Served, accept_loop-Served}
use yeyj_tcp_server.Server.Balance.{load_balance_round_robin}
use yeyj_tcp_server.Server.Config.{Config, unset, round_robin}
use yeyj_tcp_server.Server.Queueing.{CanServe}
use yeyj_tcp_server.Server.Serving.{
  Server, setting, div_int, least_positive, max_connection, new_worker, start, start_loop, pick,
  load_balance, buffer_sizes, new_connection, above_kb, check_max_memory, log_line,
}
use yeyj_tcp_server.Server.Shares.{start_lem}
use yeyj_tcp_server.Tests.Connections.{plain, none_held}
use yeyj_tcp_server.Text.{decimal, digits_loop}
use yeyj_tcp_server.Worker.{
  Worker, above, put_at, get_connection_num, set_max_connection, register_new_connection,
}

abbrev pub settings : Config
settings = record unset {
  max_tcp = some (pos 100);
  max_tcp_per_worker = some (pos 40);
  load_balance = some round_robin;
  read_buffer_init_size = some (pos 4);
  read_buffer_max_size = some (pos 8);
  write_buffer_init_size = some (pos 4);
  write_buffer_max_size = some (pos 8);
  max_vm_kb = some (pos 10);
  max_rss_kb = some (pos 5);
}

settings-CanServe : CanServe settings
settings-CanServe = record {
  rule = round_robin;
  has_rule = refl;
  reads = (4, 8, refl, refl, omega arith);
  writes = (4, 8, refl, refl, omega arith);
}

abbrev pub worker : Worker ℕ
worker = new_worker (λ a. plain none_held none_held) (λ fd. 0)

abbrev pub server : Server ℕ
server = record {
  config = settings;
  thread_pool = worker ∷ worker ∷ [];
  round_index = 0;
  last_id = 0;
  exceed_max_memory = false;
}

abbrev stopped : Server ℕ
stopped = record server { thread_pool = [] }

start_lem_example :
    (bound : ℕ) × (start worker 3 stopped
      ≡ ok (record stopped { thread_pool = replicate 3 (set_max_connection bound worker) }))
    × (0 < bound)
    × (0 < 40 → bound ≤ 40)
    × (3 ≤ 100 → bound * 3 ≤ 100)
start_lem_example = start_lem worker 3 40 100 stopped refl (omega arith) refl refl

start_fails : start worker 0 server ≡ fault division_by_zero
unfolding start max_connection setting div_int
start_fails = refl

-- A second start sets the bound in the workers of the first.
abbrev bounds : Run (List (Option ℕ))
bounds = do
  s ← start worker 2 stopped
  s' ← start worker 1 (record s { config = record settings { max_tcp = some (pos 4) } })
  ok (map (λ (w : Worker ℕ). w.max_connection) s'.thread_pool)

start_runs : bounds ≡ ok (some 4 ∷ some 40 ∷ none ∷ [])
unfolding start start_loop max_connection setting div_int least_positive set_max_connection at
start_runs = refl

abbrev arrival : ℕ → Arrival
arrival n = record { fd = n; ip = 0; port = 80; hash = 7; draw = 5; place = n; now = 3 }

accept_loop-Served_example :
    Returns
      (accept_loop connect (map accepted (arrival 4 ∷ arrival 5 ∷ []) ++ would_block ∷ []) server)
      (Served worker (arrival 4 ∷ arrival 5 ∷ []) server)
accept_loop-Served_example =
    accept_loop-Served (arrival 4 ∷ arrival 5 ∷ []) [] worker server (omega arith) settings-CanServe
      (omega arith) (omega arith)

accept_fails :
    accept_round connect (check_max_memory 0 0) true (failed ∷ []) server ≡ fault assertion
unfolding accept_round accept_loop
accept_fails = refl

-- two connections, one for each worker, and too much memory
abbrev round : Run (List (List (Option ℕ)) × Bool)
round = do
  s ←
      accept_round connect (check_max_memory 10241 0) true
        (accepted (arrival 4) ∷ accepted (arrival 5) ∷ would_block ∷ []) server
  ok (map (λ (w : Worker ℕ). w.incoming) s.thread_pool, s.exceed_max_memory)

round_runs : round ≡ ok ((some 4 ∷ []) ∷ (some 5 ∷ []) ∷ [], true)
unfolding accept_round accept_loop check_max_memory above above_kb setting new_connection
    load_balance pick load_balance_round_robin mod_int add_int buffer_sizes new_tcp_connection new
    assert at register_new_connection put_at get_connection_num size new_table
round_runs = refl

log_line_runs :
    log_line
      (codes "INFO")
      7
      (codes "worker")
      (codes "noon")
      (127 + 256 * 256 * 256)
      80
      (codes "hi")
    ≡ codes "INFO 7 worker noon 127.0.0.1:80 hi"
unfolding log_line c_string decimal digits_loop
log_line_runs = refl
