-- ===== src/Tests/Admissions.antt =====
-- A server with two workers without connections is handed one.
use yeyj_tcp_server.Base.{ℕ, suc, zero, ◌<◌, ◌≡◌, refl, arith, length, get_or, Returns}
use yeyj_tcp_server.Example.Admitting.{CanEcho, HasPlace, new_connection-IsTended}
use yeyj_tcp_server.Example.Serving.{IsEchoing}
use yeyj_tcp_server.HashTable.Steps.{view-new}
use yeyj_tcp_server.HashTable.Table.{new}
use yeyj_tcp_server.Server.Config.{round_robin}
use yeyj_tcp_server.Server.Serving.{new_connection}
use yeyj_tcp_server.Tests.Serving.{settings, worker, server}
use yeyj_tcp_server.Tests.Workers.{number_key}
use yeyj_tcp_server.Worker.Tended.{IsTended, IsKept-IsTended}
use yeyj_tcp_server.HashTable.Steps.{new-IsValid}

settings-CanEcho : CanEcho settings
settings-CanEcho = record {
  rule = round_robin;
  has_rule = refl;
  sizes = record { read_init = 4; read_max = 8; write_init = 4; write_max = 8 };
  read_from = refl;
  read_to = refl;
  write_from = refl;
  write_to = refl;
  read_two = omega arith;
  read_order = omega arith;
  write_two = omega arith;
  write_order = omega arith;
  small = omega arith;
}

worker-IsTended : IsTended IsEchoing worker
unfolding new
worker-IsTended =
    IsKept-IsTended IsEchoing worker
      (record {
        valid = new-IsValid;
        free = refl;
        kept = λ k p there. absurd (cc (there, view-new k));
      })
      refl (omega arith)

worker-HasPlace : HasPlace 3 1 worker
unfolding new
worker-HasPlace = record {
  tended = worker-IsTended;
  unused = (λ k h. absurd (cc (h, view-new k)), tt);
  new_number = view-new 1;
  room = omega arith;
}

each-HasPlace : (k : ℕ) → k < 2 → HasPlace 3 1 (get_or server.thread_pool k worker)
each-HasPlace zero lt = worker-HasPlace
each-HasPlace (suc zero) lt = worker-HasPlace
each-HasPlace (suc (suc k)) lt = worker-HasPlace

new_connection-IsTended_example : Returns (new_connection 7 5 3 4 0 80 9 server) (λ s'.
    (length s'.thread_pool ≡ 2)
    × ((k : ℕ) → k < 2 → IsTended IsEchoing (get_or s'.thread_pool k worker)))
new_connection-IsTended_example =
    new_connection-IsTended 7 5 3 4 0 80 9 worker server (omega arith) settings-CanEcho
      (omega arith) each-HasPlace
