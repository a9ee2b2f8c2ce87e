-- ===== src/Tests/Balances.antt =====
-- The rules of load balancing at concrete pools.
use yeyj_tcp_server.Server.Balance.{
  load_balance_round_robin, load_balance_random, load_balance_ip_hash, load_balance_min_connection,
  min_connection_loop,
}
use yeyj_tcp_server.Base.{
  ℕ, ◌≡◌, refl, List, [], ◌∷◌, ok, fault, division_by_zero, mod_int, add_int,
}

abbrev three_workers : List ℕ
three_workers = 4 ∷ 2 ∷ 3 ∷ []

round_robin_runs : load_balance_round_robin three_workers 4 ≡ ok (1, 5)
unfolding load_balance_round_robin mod_int add_int
round_robin_runs = refl

random_runs : load_balance_random three_workers 5 ≡ ok 2
unfolding load_balance_random mod_int
random_runs = refl

ip_hash_fails : load_balance_ip_hash [] 5 ≡ fault division_by_zero
unfolding load_balance_ip_hash mod_int
ip_hash_fails = refl

min_connection_runs : load_balance_min_connection three_workers ≡ ok 1
unfolding load_balance_min_connection min_connection_loop
min_connection_runs = refl
