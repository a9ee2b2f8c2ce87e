-- ===== src/Server/Queueing.antt =====
-- `newConnection`, and the acceptor's loop over it: each connection is queued at one worker, under a
-- number of its own.
use mathlib.Core.List.{map}
use native.Mathlib.Nat.{mod-lt}
use yeyj_tcp_server.Base.{
  ℕ, suc, ◌+◌, ◌%◌, ◌^◌, ◌≤◌, ◌<◌, ◌≡◌, ◌≢◌, refl, ap, ◌∙◌, arith, true, false, Option, some, List,
  [], ◌∷◌, ◌++◌, ℤ, pos, set, length, get_or, length-set, get_or-set_self, get_or-set_ne, int_max,
  Returns, at-ok, add_int-ok, mod_int-ok, assert, leb, replicate,
}
use yeyj_tcp_server.Buffer.{Buffer, new, three_halves}
use yeyj_tcp_server.Connection.{Connection, Sizes, new_connection as new_tcp_connection}
use yeyj_tcp_server.Server.Balance.{
  load_balance_round_robin, load_balance_random, load_balance_ip_hash, min_connection_lem,
}
use yeyj_tcp_server.Server.Config.{
  Config, LoadBalance, round_robin, random_worker, min_connection, ip_hash,
}
use yeyj_tcp_server.Server.Serving.{Server, pick, load_balance, buffer_sizes, new_connection}
use yeyj_tcp_server.Worker.Pool.{put_at_self}
use yeyj_tcp_server.Worker.{Worker, put_at, get_connection_num, register_new_connection}

length-map {ℓ κ} :
    {A : Type ℓ} {B : Type κ} (f : A → B) (xs : List A) → length (map f xs) ≡ length xs
length-map f [] = refl
length-map f (x ∷ xs) = ap suc (length-map f xs)

-- Every rule picks a worker that there is.
pub pick-lt :
    (rule : LoadBalance) (hash r index : ℕ) (nums : List ℕ)
    → 0 < length nums
    → index < int_max
    → Returns (pick rule hash r index nums) (λ p. (p.0 < length nums) × (p.1 ≤ index + 1))
unfolding pick load_balance_round_robin load_balance_random load_balance_ip_hash
pick-lt round_robin hash r index nums some_worker room = (
  (index % length nums, index + 1),
  rw (mod_int-ok index (length nums) some_worker, add_int-ok index 1 (omega arith)),
  (mod-lt index some_worker, omega arith),
)
pick-lt random_worker hash r index nums some_worker room = (
  (r % length nums, index),
  rw (mod_int-ok r (length nums) some_worker),
  (mod-lt r some_worker, omega arith),
)
pick-lt min_connection hash r index nums some_worker room =
    let (i, run, (inside, least)) = min_connection_lem nums some_worker in
    ((i, index), rw run, (inside, omega arith))
pick-lt ip_hash hash r index nums some_worker room = (
  (hash % length nums, index),
  rw (mod_int-ok hash (length nums) some_worker),
  (mod-lt hash some_worker, omega arith),
)

new_runs :
    (init largest : ℕ) (factor : ℕ → ℕ)
    → init ≤ largest
    → Returns (new init largest factor) (λ b. b.max_size ≡ largest)
unfolding new assert
new_runs init largest factor le =
    let t : leb init largest ≡ true = ground arith in
    let b : Buffer = record {
      bytes = replicate init 0;
      current_size = init;
      max_size = largest;
      begin = 0;
      end = pos 0;
      count = 0;
      grow_factor = factor;
    } in
    (b, rw t, refl)

tcp_connection_made :
    (id fd ip port now : ℕ) (sizes : Sizes)
    → sizes.read_init ≤ sizes.read_max
    → sizes.write_init ≤ sizes.write_max
    → Returns (new_tcp_connection id fd ip port sizes now) (λ c. c.id ≡ id)
unfolding new_tcp_connection
tcp_connection_made id fd ip port now sizes le le' =
    let (r, read, m) = new_runs sizes.read_init sizes.read_max three_halves le in
    let (w, write, m') = new_runs sizes.write_init sizes.write_max three_halves le' in
    let c : Connection = record {
      id = id;
      connfd = fd;
      events = record { epollin = true; epollout = true; epollet = true };
      peer_ip = ip;
      peer_port = port;
      read_buffer = r;
      write_buffer = w;
      last_active_time = now;
      closed = false;
    } in
    (c, rw (read, write), refl)

-- The settings of a buffer are there, not below zero, and in order.
abbrev pub FitsBuffer : Option ℤ → Option ℤ → Type 0
FitsBuffer init largest =
    (i : ℕ) × (m : ℕ) × (init ≡ some (pos i)) × (largest ≡ some (pos m)) × (i ≤ m)

-- What `newConnection` asks of the settings.
pub record CanServe (g : Config) : Type 0 where
  pub rule : LoadBalance
  pub has_rule : g.load_balance ≡ some rule
  pub reads : FitsBuffer g.read_buffer_init_size g.read_buffer_max_size
  pub writes : FitsBuffer g.write_buffer_init_size g.write_buffer_max_size

module _ {S : Type 0} where
  -- `s'` is `s` with a new connection, of the next number, at the end of the queue of one worker.
  pub record Queued (place : ℕ) (blank : Worker S) (s s' : Server S) : Type 0 where
    pub worker : ℕ
    pub inside : worker < length s.thread_pool
    pub queue :
        (get_or s'.thread_pool worker blank).incoming
        ≡ (get_or s.thread_pool worker blank).incoming ++ some place ∷ []
    pub number : ((get_or s'.thread_pool worker blank).objects place).id ≡ s'.last_id
    pub next_id : s'.last_id ≡ (s.last_id + 1) % 2 ^ 64
    pub others : (k : ℕ) → worker ≢ k → get_or s'.thread_pool k blank ≡ get_or s.thread_pool k blank
    pub same_workers : length s'.thread_pool ≡ length s.thread_pool
    pub same_config : s'.config ≡ s.config
    pub index_grows : s'.round_index ≤ s.round_index + 1

  -- `newConnection` where there is a worker, the settings that it reads are set, with the sizes of
  -- the buffers not below zero and in order, and the index of the round robin is below the largest
  -- int: whatever the rule, it returns, the connection is at the end of the queue of one worker, with
  -- the next number, and the other workers are untouched.
  pub new_connection-Queued :
      (hash r place fd ip port now : ℕ) (blank : Worker S) (s : Server S)
      → 0 < length s.thread_pool
      → CanServe s.config
      → s.round_index < int_max
      → Returns (new_connection hash r place fd ip port now s) (Queued place blank s)
  unfolding new_connection load_balance buffer_sizes register_new_connection
  new_connection-Queued hash r place fd ip port now blank s some_worker can room =
      let nums = map get_connection_num s.thread_pool in
      let same_length = length-map get_connection_num s.thread_pool in
      let ((i, index), picked, (inside, grows)) =
        pick-lt can.rule hash r s.round_index nums (omega (arith, same_length)) room in
      let inside' : i < length s.thread_pool = omega (arith, same_length) in
      let (ri, rm, e₁, e₂, le) = can.reads in
      let (wi, wm, e₃, e₄, le') = can.writes in
      let id = (s.last_id + 1) % 2 ^ 64 in
      let sizes : Sizes = record {
        read_init = ri;
        read_max = rm;
        write_init = wi;
        write_max = wm;
      } in
      let (c, made, named) = tcp_connection_made id fd ip port now sizes le le' in
      let w = get_or s.thread_pool i blank in
      let w' = record w {
        objects = put_at place c w.objects;
        incoming = w.incoming ++ some place ∷ [];
      } in
      let there : get_or (set s.thread_pool i w') i blank ≡ w' =
        get_or-set_self s.thread_pool i w' blank inside' in
      (
        record s { thread_pool = set s.thread_pool i w'; round_index = index; last_id = id },
        rw (can.has_rule, picked, e₁, e₂, e₃, e₄, made, at-ok s.thread_pool i blank inside'),
        record {
          worker = i;
          inside = inside';
          queue = ap (λ (x : Worker S). x.incoming) there;
          number =
              ap (λ (x : Worker S). (x.objects place).id) there
              ∙ ap (λ (x : Connection). x.id) (put_at_self place c w.objects)
              ∙ named;
          next_id = refl;
          others = λ k ne. get_or-set_ne s.thread_pool i k w' blank ne;
          same_workers = length-set s.thread_pool i w';
          same_config = refl;
          index_grows = grows;
        },
      )
