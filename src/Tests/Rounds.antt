-- ===== src/Tests/Rounds.antt =====
-- The server of main.cpp: a message, and a worker that gets its first connection.
use yeyj_tcp_server.Base.{
  ℕ, true, ◌≡◌, refl, arith, false, List, [], ◌∷◌, some, ok, Safe, Returns, codes,
}
use yeyj_tcp_server.Buffer.Faults.{three_halves-Grows}
use yeyj_tcp_server.Buffer.Ring.{contents}
use yeyj_tcp_server.Buffer.Write.{Extends}
use yeyj_tcp_server.Buffer.{Buffer, c_string}
use yeyj_tcp_server.Connection.{Connection}
use yeyj_tcp_server.Example.Echoing.{answer, emptied, on_message_lem}
use yeyj_tcp_server.Example.Serving.{IsEchoing, callbacks-Service}
use yeyj_tcp_server.Example.{on_message, callbacks}
use yeyj_tcp_server.HashTable.Steps.{view-new}
use yeyj_tcp_server.HashTable.Table.{new}
use yeyj_tcp_server.Tests.Buffers.{holding-IsValid}
use yeyj_tcp_server.Tests.Connections.{plain, none_held, arrived, arrived-IsValid, loop}
use yeyj_tcp_server.Tests.Logs.{fresh_logger}
use yeyj_tcp_server.Tests.Workers.{number_key, idle, server, seven}
use yeyj_tcp_server.Worker.Rounds.{
  Goes, After, starts, is_handed, MayEvict, work_round-Goes, calm_round-Goes,
}
use yeyj_tcp_server.Logging.{AsyncLogging}
use yeyj_tcp_server.Server.Serving.{log_line}
use yeyj_tcp_server.Server.Config.{inactive_none, max_tcp_none}
use yeyj_tcp_server.Worker.Service.{Service}
use yeyj_tcp_server.Worker.{Worker, Master, put_at, register_new_connection, work_round}

-- "1 h" and a further byte have arrived, and nothing waits to be sent
abbrev asked : Connection
asked = plain arrived none_held

-- a logger that is running
abbrev busy_logger : AsyncLogging
busy_logger = record fresh_logger { running = true }

on_message_lem_example :
    (w : Buffer) × (l : AsyncLogging) × (on_message 4
        (codes "worker")
        (codes "now")
        asked
        busy_logger
      ≡ ok (emptied asked w, l))
    × Extends none_held (answer asked) w
    × (l.current_buffer
        ≡ log_line
            (codes "DEBUG")
            4
            (codes "worker")
            (codes "now")
            asked.peer_ip
            asked.peer_port
            (c_string (contents arrived))
          ∷ [])
on_message_lem_example =
    on_message_lem 4 (codes "worker") (codes "now") asked busy_logger
      (arrived-IsValid, holding-IsValid 0 0 0 0 (omega arith), three_halves-Grows, omega arith)

callbacks-Service_example : Service loop callbacks IsEchoing
callbacks-Service_example = callbacks-Service loop

seven-IsEchoing : IsEchoing seven
seven-IsEchoing = (
  refl,
  record {
    reads = holding-IsValid 0 0 0 0 (omega arith);
    reads_grow = three_halves-Grows;
    writes = holding-IsValid 0 0 0 0 (omega arith);
    writes_grow = three_halves-Grows;
    nothing_left = refl;
    small = omega arith;
  },
)

-- the first connection has been queued
abbrev handed : Worker (List ℕ)
handed = register_new_connection (some 3) (record idle { objects = put_at 3 seven idle.objects })

handed-Goes : Goes loop callbacks IsEchoing (callbacks-Service loop) handed
unfolding new
handed-Goes =
    is_handed 3 seven idle (starts idle refl refl) seven-IsEchoing
      (λ k h. absurd (cc (h, view-new k)), tt) (view-new 7) (omega arith)

-- a server that closes what was inactive, and evicts at random from workers with more than 100
abbrev strict : Master
strict = record server { exceed_max_memory = false }

strict-MayEvict : MayEvict strict
strict-MayEvict rule = (refl, (100, refl))

work_round-Goes_example :
    Safe
      (work_round loop callbacks strict (λ n. 7 ∷ 0 ∷ []) (λ n. []) 5 [] handed)
      (After loop callbacks IsEchoing (callbacks-Service loop))
unfolding register_new_connection
work_round-Goes_example =
    work_round-Goes loop callbacks IsEchoing (callbacks-Service loop) strict (λ n. 7 ∷ 0 ∷ [])
      (λ n. []) 5 5 [] handed handed-Goes refl tt strict-MayEvict

-- a server that keeps every connection
abbrev patient : Master
patient = record server {
  inactive_tcp_eviction_rule = some inactive_none;
  max_tcp_eviction_rule = some max_tcp_none;
}

calm_round-Goes_example :
    Returns
      (work_round loop callbacks patient (λ n. []) (λ n. []) 5 [] handed)
      (After loop callbacks IsEchoing (callbacks-Service loop))
unfolding register_new_connection
calm_round-Goes_example =
    calm_round-Goes loop callbacks IsEchoing (callbacks-Service loop) patient (λ n. []) (λ n. []) 5
      5 [] handed handed-Goes refl tt (refl, refl)
