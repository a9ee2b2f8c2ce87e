-- ===== src/Tests/Workers.antt =====
-- The theorems on `Worker` at a pool of one connection, and a run of its loop.
use mathlib.Core.Option.{or_else}
use yeyj_tcp_server.Base.{
  as_int, to_int, ℕ, zero, suc, ◌≤◌, ◌≡◌, ◌≢◌, refl, sym, ap, arith, true, false, Bool-cases, inl,
  inr, ◌↔◌, ◌==◌ as nat_eq, List, [], ◌∷◌, none, some, Run, ok, fault, null_pointer, ◌>>=◌, Returns,
  pos, ◌||◌, get_or, at, store,
}
use yeyj_tcp_server.Buffer.{get_max_space}
use yeyj_tcp_server.Connection.{
  Connection, Callbacks, invoke, read_socket, on_received, on_disconnection, on_readable_event,
}
use yeyj_tcp_server.HashTable.Chains.{Key, find, set_value, hash_of, slot}
use yeyj_tcp_server.HashTable.Methods.{
  enter, walk, on_chain, on_place, insert_raw, subscript, subscript_set,
}
use yeyj_tcp_server.HashTable.Random.{pick_bucket, draw_bucket, get_random_entry, get_random_value}
use yeyj_tcp_server.HashTable.Rehash.{step_if_rehashing}
use yeyj_tcp_server.HashTable.Table.{
  Dictht, Dict, no_table, new, size, empty, is_rehashing, next_power, next_power_loop, expand,
  expand_if_needed,
}
use yeyj_tcp_server.HashTable.Valid.{entries, count, view, IsValid}
use yeyj_tcp_server.Server.Config.{max_tcp_random, inactive_none, inactive_close}
use yeyj_tcp_server.Tests.Connections.{plain, none_held, loop, quiet, loop_receive}
use yeyj_tcp_server.Worker.Evicting.{evict_closed, work_round_idle}
use yeyj_tcp_server.Worker.Handling.{handle_event_missing, handle_event-Leaves}
use yeyj_tcp_server.Worker.Visiting.{visit}
use yeyj_tcp_server.Worker.Names.{KeepsName}
use yeyj_tcp_server.Worker.Pool.{Leaves}
use yeyj_tcp_server.Worker.Registering.{Registered, Welcomes, register_incoming-Registered}
use yeyj_tcp_server.Worker.{
  Worker, Event, Master, Pointer, put_at, handle_event, handle_events, register_one, register_loop,
  register_incoming, register_new_connection, get_connection_num, evict_random_n, work_round, above,
  above_int, manage_inactive_connection,
}

pub nat_iff : (a b : ℕ) → (nat_eq a b ≡ true) ↔ (a ≡ b)
nat_iff a b = (λ h. ground arith, λ h. ground arith)

instance abbrev pub number_key : Key ℕ
number_key = record { hash = λ n. n; equal = λ a b. nat_eq a b; equal_iff = nat_iff }

-- the connection 7 at the address 0
abbrev pub one_table : Dictht ℕ Pointer
one_table = record {
  table = [] ∷ [] ∷ [] ∷ ((7, some 0) ∷ []) ∷ [];
  size = 4;
  sizemask = 3;
  used = 1;
}

abbrev pub one : Dict ℕ Pointer
one = record { ht0 = one_table; ht1 = no_table; rehashidx = none; iterators = 0 }

one_homes : (q i : ℕ) → i ≢ slot q 3 → count q (get_or one_table.table i []) ≡ 0
unfolding count slot hash_of
one_homes q zero ne = refl
one_homes q (suc zero) ne = refl
one_homes q (suc (suc zero)) ne = refl
one_homes q (suc (suc (suc zero))) ne = elim (Bool-cases (nat_eq q 7)) [
  | inl there ↦ let e : q ≡ 7 = ground arith in absurd (ne (sym (ap (λ k. slot k 3) e)))
  | inr apart ↦ rw apart
]
one_homes q (suc (suc (suc (suc i)))) ne = refl

one_once : (q i : ℕ) → count q (get_or one_table.table i []) ≤ 1
unfolding count
one_once q zero = omega arith
one_once q (suc zero) = omega arith
one_once q (suc (suc zero)) = omega arith
one_once q (suc (suc (suc zero))) = ground arith
one_once q (suc (suc (suc (suc i)))) = omega arith

pub one-IsValid : IsValid one
unfolding entries count
one-IsValid = record {
  placed0 = record {
    width = refl;
    within = omega arith;
    mask = λ h. refl;
    counted = refl;
    homes = one_homes;
  };
  placed1 = record {
    width = refl;
    within = omega arith;
    mask = λ h. absurd (omega arith);
    counted = refl;
    homes = λ q i ne. refl;
  };
  once = λ q. omega (arith, one_once q (slot q 3));
  mode = (refl, refl);
}

-- a callback for new connections too
abbrev pub greeting : Callbacks
greeting = record quiet { on_connection = some (λ c. ok c) }

greeting-Welcomes : Welcomes greeting
unfolding invoke
greeting-Welcomes c = (c, refl, (refl, refl))

greeting-KeepsName : KeepsName greeting
unfolding invoke
greeting-KeepsName = record {
  message = λ c c' h.
      (let e : c ≡ c' = cc h in
        (ap (λ (x : Connection). x.id) (sym e), ap (λ (x : Connection). x.connfd) (sym e)));
  disconnection = λ c c' h.
      (let e : c ≡ c' = cc h in
        (ap (λ (x : Connection). x.id) (sym e), ap (λ (x : Connection). x.connfd) (sym e)));
}

abbrev pub seven : Connection
seven = plain none_held none_held

-- at the address 1 a connection with the number 9
abbrev pub working : Worker (List ℕ)
working = record {
  max_connection = some 5;
  incoming = some 1 ∷ [];
  pool = one;
  objects = put_at 1 (record seven { id = 9; connfd = 6 }) (λ b. seven);
  sockets = λ fd. [];
  epoll = [];
}

abbrev pub input : ℕ → Event
input k = record { error = false; hangup = false; readable = true; writable = false; id = k }

handle_event_missing_example : handle_event loop greeting 3 (input 8) working ≡ fault null_pointer
handle_event_missing_example =
    handle_event_missing loop greeting 3 (input 8) working one-IsValid (omega arith)
      (unfold view find slot hash_of or_else in refl)

-- the peer has closed its end: nothing is read
abbrev gone : Connection
gone = record seven { last_active_time = 3; closed = true }

visit-gone :
    visit loop greeting 3 (input 7) (working.objects 0) (working.sockets (working.objects 0).connfd)
    ≡ ok (gone, [])
unfolding loop_receive put_at on_readable_event get_max_space read_socket on_received
    on_disconnection invoke
visit-gone = refl

handle_event-Leaves_example : Returns (handle_event loop greeting 3 (input 7) working) (λ w'.
    (w'.objects ≡ put_at 0 gone working.objects)
    × (w'.sockets ≡ put_at gone.connfd [] working.sockets)
    × (w'.incoming ≡ working.incoming)
    × Leaves (false || false || true) 7 working.pool w'.pool)
handle_event-Leaves_example =
    handle_event-Leaves loop greeting 3 (input 7) 0 gone [] working one-IsValid (omega arith)
      (unfold view find slot hash_of or_else in refl) (unfold put_at in refl) greeting-KeepsName
      visit-gone

register_incoming-Registered_example :
    Returns
      (register_incoming greeting working)
      (Registered (1 ∷ []) (record working { incoming = [] }))
register_incoming-Registered_example =
    register_incoming-Registered greeting (1 ∷ []) working refl greeting-Welcomes one-IsValid
      (omega arith)

-- its connections are closed, and have been so for five seconds
abbrev stale : Worker (List ℕ)
stale = record working { objects = λ b. record seven { closed = true } }

abbrev pub server : Master
server = record {
  max_tcp_per_worker = pos 100;
  exceed_max_memory = true;
  max_tcp_eviction_rule = some max_tcp_random;
  inactive_tcp_eviction_rule = some inactive_close;
  inactive_tcp_timeout = pos 2;
  eviction_pool_size = pos 1;
}

drawn : get_random_value (3 ∷ 0 ∷ []) one ≡ ok (some 0, one)
unfolding get_random_value get_random_entry draw_bucket pick_bucket step_if_rehashing is_rehashing
    size to_int at
drawn = refl

evict_closed_example :
    evict_random_n server (λ n. 3 ∷ 0 ∷ []) 5 (pos 1) false stale ≡ fault null_pointer
unfolding above
evict_closed_example =
    evict_closed server (λ n. 3 ∷ 0 ∷ []) 5 false 0 one stale (unfold empty size in refl) drawn
      one-IsValid (omega arith) refl (omega arith) (omega arith) refl

abbrev pub idle : Worker (List ℕ)
idle = record working { incoming = []; pool = new }

work_round_idle_example :
    work_round loop greeting server (λ n. []) (λ n. []) 5 [] idle ≡ fault null_pointer
work_round_idle_example =
    work_round_idle loop greeting server (λ n. []) (λ n. []) 5 5 idle refl (unfold new size in refl)
      refl refl refl

-- two connections are queued, and registered in the next round
abbrev two_queued : Run ℕ
two_queued = do
  w ←
      work_round loop greeting
        (record server {
          exceed_max_memory = false;
          inactive_tcp_eviction_rule = some inactive_none;
        })
        (λ n. []) (λ n. []) 5 []
        (register_new_connection (some 1) (register_new_connection (some 0) idle))
  ok (get_connection_num w)

two_queued_runs : two_queued ≡ ok 2
unfolding work_round handle_events register_incoming register_loop register_one
    manage_inactive_connection register_new_connection get_connection_num put_at invoke above
    subscript_set subscript insert_raw enter as_int above_int walk on_place on_chain expand
    expand_if_needed next_power next_power_loop step_if_rehashing is_rehashing find set_value slot
    hash_of new size store at
two_queued_runs = refl
