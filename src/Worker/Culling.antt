-- ===== src/Worker/Culling.antt =====
-- The evictions of a worker whose pool is kept: at most one connection leaves, and why.
use mathlib.Core.Path.{subst}
use yeyj_tcp_server.Base.{
  as_int, ℕ, zero, suc, ◌+◌, ◌*◌, ◌≤◌, ◌<◌, ◌≡◌, refl, sym, ap, ◌∙◌, arith, Bool, true, false, not,
  ◌&&◌, ◌||◌, Option, none, some, List, Bool-cases, inl, inr, Run, ok, ◌>>=◌, Safe, bind-Safe,
  Safe-map, Returns, ℤ, ◌==◌ as nat_eq,
}
use yeyj_tcp_server.Connection.{Connection}
use yeyj_tcp_server.HashTable.Chains.{Key}
use yeyj_tcp_server.HashTable.Chances.{get_random_value-Keeps}
use yeyj_tcp_server.HashTable.Moves.{Keeps}
use yeyj_tcp_server.HashTable.Random.{get_random_value}
use yeyj_tcp_server.HashTable.Rounds.{Keeps-refl, Keeps-trans}
use yeyj_tcp_server.HashTable.Table.{Dict, most_buckets, size, empty}
use yeyj_tcp_server.Server.Config.{
  MaxTcpEviction, max_tcp_none, max_tcp_random, max_tcp_inactive, InactiveEviction, inactive_none,
  inactive_close,
}
use yeyj_tcp_server.Worker.Pool.{Leaves-trans, subscript_get_present}
use yeyj_tcp_server.Worker.Service.{IsKept, Keeps-IsKept}
use yeyj_tcp_server.Worker.{
  Worker, Master, Pointer, above, rounds_of, choose, no_id, deref, min_int, remove_connection,
  evict_scan, evict_most, evict_random_n, eviction, manage_inactive_connection,
}
use yeyj_tcp_server.Worker.Leaving.{
  IsDue, Holds, Evicts, IsFound, choose-IsFound, unchanged, removed, Keeps-Leaves, is_filled,
}

module _ ⦃key : Key ℕ⦄ {S : Type 0} where
  module _ (P : Connection → Type 0) (is_open : (c : Connection) → P c → c.closed ≡ false) where
    -- A random connection of the pool.
    random_one :
        (draws : List ℕ) (w : Worker S)
        → IsKept P w
        → 0 < size w.pool
        → (w.pool.ht0.used + w.pool.ht1.used) * 2 ≤ most_buckets
        → Safe (get_random_value draws w.pool) (λ r.
          Keeps w.pool r.1 × ((k : ℕ) × (a : ℕ) × (r.0 ≡ some a) × Holds w k a × P (w.objects a)))
    random_one draws w good some_there small =
        Safe-map (get_random_value-Keeps draws w.pool good.valid good.free some_there (omega arith))
          (λ r (keep, (k, there)).
            (let (a, is_a, named, holds) = good.kept k r.0 there in
              (keep, (k, a, is_a, (there ∙ ap (λ p. some p) is_a, named), holds))))

    abbrev AreFound : ℕ → Worker S → Option (ℕ × ℕ) → Type 0
    AreFound now w none = Unit {0}
    AreFound now w (some best) = IsFound now w best

    -- The loop of `evictRandomN` keeps the map, and what it finds is in the pool.
    evict_scan_found :
        (n : ℕ) (draws : ℕ → List ℕ) (now : ℕ) (best : ℕ × ℕ) (w : Worker S) (d : Dict ℕ Pointer)
        → IsKept P w
        → Keeps w.pool d
        → IsFound now w best
        → (w.pool.ht0.used + w.pool.ht1.used) * 2 ≤ most_buckets
        → Safe (evict_scan n draws now best (record w { pool = d })) (λ r.
          (d' : Dict ℕ Pointer) × (r.1 ≡ record w { pool = d' })
          × Keeps w.pool d'
          × AreFound now w r.0)
    unfolding evict_scan deref
    evict_scan_found zero draws now best w d good keep found small =
        inr ((some best, record w { pool = d }), refl, (d, refl, keep, found))
    evict_scan_found (suc n) draws now best w d good keep found small =
        elim (Bool-cases (empty d)) [
          | inl bare ↦ rw bare (inr ((none, record w { pool = d }), refl, (d, refl, keep, tt)))
          | inr filled ↦ rw filled (
              bind-Safe (get_random_value (draws n) d) _
                (random_one (draws n) (record w { pool = d })
                  (Keeps-IsKept P w (record w { pool = d }) good refl keep) (is_filled d filled)
                  (omega (arith, keep.same_size, small)))
                (λ (p, d₁) (keep₁, (k, a, is_a, (there, named), holds)).
                  (let held : Holds w k a = (sym (keep.same_view k) ∙ there, named) in
                    rw (is_a, is_open (w.objects a) holds)
                      (evict_scan_found n draws now (choose now (w.objects a) best) w d₁ good
                        (Keeps-trans w.pool d d₁ keep keep₁)
                        (choose-IsFound now a k best w held found) small))))
        ]

    module _ (m : Master) (force : Bool) (now : ℕ) where
      evict_most-Evicts :
          (best : ℕ × ℕ) (w : Worker S) (d : Dict ℕ Pointer)
          → (w.pool.ht0.used + w.pool.ht1.used) * 2 ≤ most_buckets
          → Keeps w.pool d
          → IsFound now w best
          → Returns (evict_most m force best (record w { pool = d })) (Evicts (IsDue m force now) w)
      unfolding evict_most
      evict_most-Evicts (k, t) w d small keep found =
          elim (Bool-cases (not (nat_eq k no_id) && (force || above t m.inactive_tcp_timeout))) [
            | inr calm ↦ (record w { pool = d }, rw calm, unchanged (IsDue m force now) w d keep)
            | inl due ↦
                let (known, right) =
                  both (nat_eq k no_id) (force || above t m.inactive_tcp_timeout) due in
                elim found [
                  | inl nobody ↦ absurd (ground arith)
                  | inr (a, (there, named), inactive) ↦
                      let ((p, d₁), got, (is_a, l)) =
                        subscript_get_present (some a) k d keep.valid
                          (omega (arith, keep.same_size)) (keep.same_view k ∙ there) in
                      let kept =
                        Leaves-trans false false k w.pool d d₁ (Keeps-Leaves w.pool d k keep) l in
                      let right' =
                        subst (λ n. (force || above n m.inactive_tcp_timeout) ≡ true) inactive
                          right in
                      let (w', run, e) =
                        removed (IsDue m force now) w d₁ k a kept (there, named) right' in
                      (w', rw (due, got, is_a) run, e)
                ]
          ]
        where
          both : (x y : Bool) → (not x && y) ≡ true → (x ≡ false) × (y ≡ true)
          both true y h = absurd (cc h)
          both false y h = (refl, h)

      -- `evictRandomN` on a pool that is kept and at most 2^30 long, whose connections
      -- are open, for every list of results of `random()`: unless these are used up, it returns; at
      -- most one connection leaves the pool, and where not forced it was inactive for longer than the
      -- timeout.
      pub evict_random_n-Evicts :
          (draws : ℕ → List ℕ) (n : ℤ) (w : Worker S)
          → IsKept P w
          → (w.pool.ht0.used + w.pool.ht1.used) * 2 ≤ most_buckets
          → Safe (evict_random_n m draws now n force w) (Evicts (IsDue m force now) w)
      unfolding evict_random_n
      evict_random_n-Evicts draws n w good small =
          let keep = Keeps-refl w.pool good.valid in
          elim (Bool-cases (nat_eq (rounds_of n) 0)) [
            | inl no_rounds ↦
                rw no_rounds (inr (w, refl, unchanged (IsDue m force now) w w.pool keep))
            | inr some_rounds ↦ rw some_rounds (
                bind-Safe (evict_scan (rounds_of n) draws now (no_id, 0) w) _
                  (evict_scan_found (rounds_of n) draws now (no_id, 0) w w.pool good keep (inl refl)
                    small)
                  (λ (found, w₁) (d, is_w, kept, best). ends found w₁ d is_w kept best))
          ]
        where
          ends :
              (found : Option (ℕ × ℕ)) (w₁ : Worker S) (d : Dict ℕ Pointer)
              → w₁ ≡ record w { pool = d }
              → Keeps w.pool d
              → AreFound now w found
              → Safe
                  (elim found as (λ _. Run (Worker S)) [
                    | none ↦ ok w₁
                    | some best ↦ evict_most m force best w₁
                  ])
                  (Evicts (IsDue m force now) w)
          ends none w₁ d is_w kept best =
              inr
                (record w { pool = d }, ap (λ x. ok x) is_w, unchanged (IsDue m force now) w d kept)
          ends (some best) w₁ d is_w kept found =
              let (w₂, run, e) = evict_most-Evicts best w d small kept found in
              inr (w₂, ap (evict_most m force best) is_w ∙ run, e)

    -- `manageInactiveConnection` takes at most one connection from the pool, and only one that was
    -- inactive for longer than the timeout.
    pub manage_inactive_connection-Evicts :
        (m : Master) (draws : ℕ → List ℕ) (now : ℕ) (w : Worker S)
        → IsKept P w
        → (w.pool.ht0.used + w.pool.ht1.used) * 2 ≤ most_buckets
        → Safe (manage_inactive_connection m draws now w) (Evicts (IsDue m false now) w)
    unfolding manage_inactive_connection
    manage_inactive_connection-Evicts m draws now w good small =
        ruled m.inactive_tcp_eviction_rule
          (evict_random_n-Evicts m false now draws m.eviction_pool_size w good small)
      where
        ruled :
            (rule : Option InactiveEviction)
            → Safe
                (evict_random_n m draws now m.eviction_pool_size false w)
                (Evicts (IsDue m false now) w)
            → Safe
                (elim rule as (λ _. Run (Worker S)) [
                  | some inactive_none ↦ ok w
                  | some inactive_close ↦ evict_random_n m draws now m.eviction_pool_size false w
                  | none ↦ evict_random_n m draws now m.eviction_pool_size false w
                ])
                (Evicts (IsDue m false now) w)
        ruled (some inactive_none) h =
            inr (w, refl, unchanged (IsDue m false now) w w.pool (Keeps-refl w.pool good.valid))
        ruled (some inactive_close) h = h
        ruled none h = h

    -- `eviction` takes at most one connection from the pool; the random rule needs one.
    pub eviction-Evicts :
        (m : Master) (draws : ℕ → List ℕ) (now : ℕ) (w : Worker S)
        → IsKept P w
        → (w.pool.ht0.used + w.pool.ht1.used) * 2 ≤ most_buckets
        → (m.max_tcp_eviction_rule ≡ some max_tcp_random → 0 < size w.pool)
        → Safe (eviction m draws now w) (Evicts (IsDue m true now) w)
    unfolding eviction
    eviction-Evicts m draws now w good small filled = ruled m.max_tcp_eviction_rule filled
      where
        stays : Evicts (IsDue m true now) w w
        stays = unchanged (IsDue m true now) w w.pool (Keeps-refl w.pool good.valid)

        ruled :
            (rule : Option MaxTcpEviction)
            → (rule ≡ some max_tcp_random → 0 < size w.pool)
            → Safe
                (elim rule as (λ _. Run (Worker S)) [
                  | none ↦ ok w
                  | some rule ↦ elim rule as (λ _. Run (Worker S)) [
                    | max_tcp_none ↦ ok w
                    | max_tcp_random ↦ do
                      (p, d) ← get_random_value (draws 0) w.pool
                      remove_connection p (record w { pool = d })
                    | max_tcp_inactive ↦
                        evict_random_n m draws now
                          (min_int (as_int (size w.pool)) m.eviction_pool_size)
                          true
                          w
                  ]
                ])
                (Evicts (IsDue m true now) w)
        ruled none filled = inr (w, refl, stays)
        ruled (some max_tcp_none) filled = inr (w, refl, stays)
        ruled (some max_tcp_inactive) filled =
            evict_random_n-Evicts m true now draws
              (min_int (as_int (size w.pool)) m.eviction_pool_size) w good small
        ruled (some max_tcp_random) filled =
            bind-Safe (get_random_value (draws 0) w.pool) _
              (random_one (draws 0) w good (filled refl) small)
              (λ (p, d) (keep, (k, a, is_a, held, holds)).
                (let (w', run, e) =
                    removed (IsDue m true now) w d k a (Keeps-Leaves w.pool d k keep) held refl in
                  inr (w', ap (λ x. remove_connection x (record w { pool = d })) is_a ∙ run, e)))
