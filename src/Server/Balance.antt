-- ===== src/Server/Balance.antt =====
-- tcpServer.cpp: the rules of load balancing. A worker is the number of its connections, as
-- `getConnectionNum` gives it, and a rule picks its index in `_threadPool`.
use native.Mathlib.Decide.{dec_lt}
use yeyj_tcp_server.Base.{
  ℕ, zero, suc, ◌+◌, ◌≤◌, ◌<◌, ◌≡◌, refl, ◌⊎◌, inl, inr, arith, true, false, List, [], ◌∷◌,
  if◌then◌else◌, ltb, length, get_or, Run, ok, fault, ◌>>=◌, out_of_range, mod_int, add_int,
  Returns,
}

-- `loadBalanceRoundRobin`, with the static `index` before and after.
unfoldable pub load_balance_round_robin : List ℕ → ℕ → Run (ℕ × ℕ)
load_balance_round_robin pool index = do
  i ← mod_int index (length pool)
  next ← add_int index 1
  ok (i, next)

-- `loadBalanceRandom`, for a result `r` of `rand()`.
unfoldable pub load_balance_random : List ℕ → ℕ → Run ℕ
load_balance_random pool r = mod_int r (length pool)

-- `loadBalanceIPHash`, for the hash of the address.
unfoldable pub load_balance_ip_hash : List ℕ → ℕ → Run ℕ
load_balance_ip_hash pool hash = mod_int hash (length pool)

-- The loop of `loadBalanceMinConnection` from worker `i` on.
unfoldable pub min_connection_loop : List ℕ → ℕ → ℕ → ℕ → ℕ
min_connection_loop [] i index connections = index
min_connection_loop (n ∷ ns) i index connections =
    let (index', connections') = (if ltb n connections then (i, n) else (index, connections)) in
    min_connection_loop ns (i + 1) index' connections'

unfoldable pub load_balance_min_connection : List ℕ → Run ℕ
load_balance_min_connection [] = fault out_of_range
load_balance_min_connection (n ∷ ns) = ok (min_connection_loop ns 1 0 n)

abbrev Least : List ℕ → ℕ → Type 0
Least ns m = (k : ℕ) → k < length ns → m ≤ get_or ns k 0

Least-cons : (n : ℕ) (ns : List ℕ) (m : ℕ) → m ≤ n → Least ns m → Least (n ∷ ns) m
Least-cons n ns m h rest zero lt = h
Least-cons n ns m h rest (suc k) lt = rest k (omega arith)

-- The loop keeps the index that it has, or finds a worker with fewer connections.
abbrev Ends : List ℕ → ℕ → ℕ → ℕ → ℕ → Type 0
Ends ns i index c r =
    ((r ≡ index) × Least ns c)
    ⊎ ((j : ℕ) × (r ≡ i + j) × (j < length ns) × (get_or ns j 0 ≤ c) × Least ns (get_or ns j 0))

min_connection_loop-Ends :
    (ns : List ℕ) (i index c : ℕ) → Ends ns i index c (min_connection_loop ns i index c)
unfolding min_connection_loop
min_connection_loop-Ends [] i index c = inl (refl, λ k lt. absurd (omega arith))
min_connection_loop-Ends (n ∷ ns) i index c = elim (dec_lt n c) [
  | yes less ↦
      let now : ltb n c ≡ true = ground arith in
      rw now (elim (min_connection_loop-Ends ns (i + 1) i n) [
        | inl (same, least) ↦
            inr (0, omega arith, omega arith, omega arith, Least-cons n ns n (omega arith) least)
        | inr (j, at_j, inside, less', least) ↦ inr (
          suc j,
          omega arith,
          omega arith,
          omega arith,
          Least-cons n ns (get_or ns j 0) less' least,
        )
      ])
  | no more ↦
      let later : ltb n c ≡ false = ground arith in
      rw later (elim (min_connection_loop-Ends ns (i + 1) index c) [
        | inl (same, least) ↦ inl (same, Least-cons n ns c (omega arith) least)
        | inr (j, at_j, inside, less', least) ↦ inr (
          suc j,
          omega arith,
          omega arith,
          omega arith,
          Least-cons n ns (get_or ns j 0) (omega arith) least,
        )
      ])
]

-- With at least one worker, `loadBalanceMinConnection` picks one, and no worker has fewer
-- connections than it.
pub min_connection_lem :
    (pool : List ℕ)
    → 0 < length pool
    → Returns
        (load_balance_min_connection pool)
        (λ i. (i < length pool) × ((k : ℕ) → k < length pool → get_or pool i 0 ≤ get_or pool k 0))
unfolding load_balance_min_connection
min_connection_lem [] some_worker = absurd (omega arith)
min_connection_lem (n ∷ ns) some_worker = (
  min_connection_loop ns 1 0 n,
  refl,
  elim (min_connection_loop-Ends ns 1 0 n) [
    | inl (same, least) ↦ rw same (omega arith, Least-cons n ns n (omega arith) least)
    | inr (j, at_j, inside, less', least) ↦
        let e : min_connection_loop ns 1 0 n ≡ suc j = omega arith in
        rw e (omega arith, Least-cons n ns (get_or ns j 0) less' least)
  ],
)
