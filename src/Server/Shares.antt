-- ===== src/Server/Shares.antt =====
-- The bound on the events of each worker that `start` computes.
use native.Mathlib.Nat.{mod-add-div', mod-lt, div-mul-le_self, mul-le-mul_right}
use yeyj_tcp_server.Base.{
  ok, sym, ap, ◌∙◌, List, [], ◌∷◌, ◌++◌, length, length-append, replicate, append-nil, append_assoc,
  at_last, set_last, ℕ, zero, suc, ◌+◌, ◌*◌, ◌/◌, ◌%◌, ◌≤◌, ◌<◌, ◌≡◌, arith, some, pos, Returns,
}
use yeyj_tcp_server.Server.Config.{Config}
use yeyj_tcp_server.Server.Serving.{
  Server, start, start_loop, max_connection, setting, div_int, least_positive,
}
use yeyj_tcp_server.Worker.{Worker, set_max_connection}

least_positive_lem :
    (p q : ℕ)
    → (0 < least_positive (pos p) (pos q))
      × (0 < p → least_positive (pos p) (pos q) ≤ p)
      × (0 < q → least_positive (pos p) (pos q) ≤ q)
unfolding least_positive
least_positive_lem p q = (ground arith, λ h. ground arith, λ h. ground arith)

quotient_positive : (q r k m : ℕ) → r + q * k ≡ m → r < k → k ≤ m → 0 < q
quotient_positive zero r k m e small few = absurd (omega arith)
quotient_positive (suc q) r k m e small few = omega arith

-- With one worker or more, and limits that are set and not below zero, the bound is above zero, as
-- `epoll_wait` wants it; it is at most the limit of a worker, if this is above zero, and the bounds of
-- all workers together are at most the limit of the server, if there are not more workers than that.
max_connection_lem :
    (g : Config) (n p m : ℕ)
    → 0 < n
    → g.max_tcp_per_worker ≡ some (pos p)
    → g.max_tcp ≡ some (pos m)
    → Returns
        (max_connection g n)
        (λ bound. (0 < bound) × (0 < p → bound ≤ p) × (n ≤ m → bound * n ≤ m))
unfolding max_connection setting div_int
max_connection_lem g zero p m some_worker e e' = absurd (omega arith)
max_connection_lem g (suc n) p m some_worker e e' =
    let q = m / suc n in
    let (above_zero, own, share) = least_positive_lem p q in
    (
      least_positive (pos p) (pos q),
      rw (e, e'),
      (
        above_zero,
        own,
        λ few.
            let some_share : 0 < q =
              quotient_positive q (m % suc n) (suc n) m (mod-add-div' m (suc n))
                (mod-lt m (omega arith)) few in
            let each = mul-le-mul_right (suc n) (share some_share) in
            omega (arith, each, div-mul-le_self m (suc n)),
      ),
    )

module _ {S : Type 0} where
  start_loop_lem :
      (rounds bound : ℕ) (fresh : Worker S) (pool : List (Worker S))
      → start_loop rounds (length pool) bound fresh pool
        ≡ ok (pool ++ replicate rounds (set_max_connection bound fresh))
  unfolding start_loop
  start_loop_lem zero bound fresh pool = ap (λ ws. ok ws) (sym (append-nil pool))
  start_loop_lem (suc rounds) bound fresh pool =
      let w = set_max_connection bound fresh in
      let longer : length (pool ++ w ∷ []) ≡ length pool + 1 = length-append pool (w ∷ []) in
      rw (at_last pool fresh, set_last pool fresh w, ← longer)
        (start_loop_lem rounds bound fresh (pool ++ w ∷ [])
          ∙ ap (λ ws. ok ws) (append_assoc pool (w ∷ []) (replicate rounds w)))

  -- The first `start`, with one worker or more, and limits that are set and not below zero, returns
  -- with this number of workers, which all have the same bound on their events: it is above zero, as
  -- `epoll_wait` wants it, at most the limit of a worker if this is above zero, and the bounds of all
  -- workers together are at most the limit of the server if there are not more workers than that.
  pub start_lem :
      (fresh : Worker S) (n p m : ℕ) (s : Server S)
      → s.thread_pool ≡ []
      → 0 < n
      → s.config.max_tcp_per_worker ≡ some (pos p)
      → s.config.max_tcp ≡ some (pos m)
      → (bound : ℕ) × (start fresh n s
          ≡ ok (record s { thread_pool = replicate n (set_max_connection bound fresh) }))
        × (0 < bound)
        × (0 < p → bound ≤ p)
        × (n ≤ m → bound * n ≤ m)
  unfolding start
  start_lem fresh n p m s first some_worker e e' =
      let (bound, run, (above_zero, own, share)) =
        max_connection_lem s.config n p m some_worker e e' in
      let looped : start_loop n 0 bound fresh s.thread_pool
          ≡ ok (replicate n (set_max_connection bound fresh)) =
        ap (start_loop n 0 bound fresh) first ∙ start_loop_lem n bound fresh [] in
      (bound, rw (run, looped), above_zero, own, share)
