-- ===== src/Example/Admitting.antt =====
-- `newConnection` of the server of main.cpp: every worker stays tended.
use mathlib.Core.List.{map}
use mathlib.Core.Path.{subst}
use native.Mathlib.Decide.{ℕ_discrete}
use yeyj_tcp_server.Base.{
  ℕ, ◌+◌, ◌*◌, ◌%◌, ◌^◌, ◌≤◌, ◌<◌, ◌≡◌, sym, ap, ◌∙◌, arith, some, none, pos, set, length, get_or,
  length-set, get_or-set_self, get_or-set_ne, length-map, int_max, Returns, at-ok,
}
use yeyj_tcp_server.Buffer.Ring.{max_bytes}
use yeyj_tcp_server.Connection.{Sizes}
use yeyj_tcp_server.Example.Serving.{IsEchoing, new_connection-IsEchoing}
use yeyj_tcp_server.HashTable.Chains.{Key}
use yeyj_tcp_server.HashTable.Table.{most_buckets}
use yeyj_tcp_server.HashTable.Valid.{view}
use yeyj_tcp_server.Server.Config.{Config, LoadBalance}
use yeyj_tcp_server.Server.Queueing.{pick-lt}
use yeyj_tcp_server.Server.Serving.{Server, load_balance, buffer_sizes, new_connection}
use yeyj_tcp_server.Worker.Tended.{IsTended, IsUnused, register_new_connection-IsTended}
use yeyj_tcp_server.Worker.{Worker, get_connection_num, register_new_connection, put_at}

-- The settings that `newConnection` reads: a rule, and sizes of buffers from 2 on, in order, the
-- largest with a sum of at most 1 GiB.
pub record CanEcho (g : Config) : Type 0 where
  pub rule : LoadBalance
  pub has_rule : g.load_balance ≡ some rule
  pub sizes : Sizes
  pub read_from : g.read_buffer_init_size ≡ some (pos sizes.read_init)
  pub read_to : g.read_buffer_max_size ≡ some (pos sizes.read_max)
  pub write_from : g.write_buffer_init_size ≡ some (pos sizes.write_init)
  pub write_to : g.write_buffer_max_size ≡ some (pos sizes.write_max)
  pub read_two : 2 ≤ sizes.read_init
  pub read_order : sizes.read_init ≤ sizes.read_max
  pub write_two : 2 ≤ sizes.write_init
  pub write_order : sizes.write_init ≤ sizes.write_max
  pub small : sizes.read_max + sizes.write_max ≤ max_bytes

module _ ⦃key : Key ℕ⦄ {S : Type 0} where
  -- A worker that can be handed a connection at the address `place` with the number `id`.
  pub record HasPlace (place id : ℕ) (w : Worker S) : Type 0 where
    pub tended : IsTended IsEchoing w
    pub unused : IsUnused IsEchoing place w
    pub new_number : view w.pool id ≡ none
    pub room : (w.pool.ht0.used + w.pool.ht1.used + length w.incoming + 1) * 2 ≤ most_buckets

  -- `newConnection` where there is a worker, the settings fit, the index of the round robin is below
  -- the largest int, and every worker is tended and has place for the next number at an address that
  -- is not in use: whatever the rule, it returns, and every worker is tended.
  pub new_connection-IsTended :
      (hash r place fd ip port now : ℕ) (blank : Worker S) (s : Server S)
      → 0 < length s.thread_pool
      → CanEcho s.config
      → s.round_index < int_max
      → ((k : ℕ)
          → k < length s.thread_pool
          → HasPlace place ((s.last_id + 1) % 2 ^ 64) (get_or s.thread_pool k blank))
      → Returns (new_connection hash r place fd ip port now s) (λ s'.
        (length s'.thread_pool ≡ length s.thread_pool)
        × ((k : ℕ) → k < length s.thread_pool → IsTended IsEchoing (get_or s'.thread_pool k blank)))
  unfolding new_connection load_balance buffer_sizes
  new_connection-IsTended hash r place fd ip port now blank s some_worker can room all =
      let ws = s.thread_pool in
      let counts = length-map ws get_connection_num in
      let ((i, index), picked, (inside, grows)) =
        pick-lt can.rule hash r s.round_index (map get_connection_num ws) (omega (arith, counts))
          room in
      let inside' : i < length ws = omega (arith, counts) in
      let id = (s.last_id + 1) % 2 ^ 64 in
      let (c, made, (named, echoing)) =
        new_connection-IsEchoing id fd ip port now can.sizes can.read_two can.read_order
          can.write_two can.write_order can.small in
      let w = get_or ws i blank in
      let w' =
        register_new_connection (some place) (record w { objects = put_at place c w.objects }) in
      let p = all i inside' in
      let kept =
        register_new_connection-IsTended IsEchoing place c w p.tended echoing p.unused
          (ap (view w.pool) named ∙ p.new_number) p.room in
      (
        record s { thread_pool = set ws i w'; round_index = index; last_id = id },
        rw (
          can.has_rule,
          picked,
          can.read_from,
          can.read_to,
          can.write_from,
          can.write_to,
          made,
          at-ok ws i blank inside',
        ),
        (
          length-set ws i w',
          λ k lt. elim (ℕ_discrete i k) [
            | yes same ↦
                subst (λ n. IsTended IsEchoing (get_or (set ws i w') n blank)) same
                  (subst (IsTended IsEchoing) (sym (get_or-set_self ws i w' blank inside')) kept)
            | no ne ↦
                subst (IsTended IsEchoing) (sym (get_or-set_ne ws i k w' blank ne))
                  (all k lt).tended
          ],
        ),
      )
