-- ===== src/Worker/Leaving.antt =====
-- What an eviction does to a worker: at most one connection leaves, and why.
use mathlib.Core.Path.{subst}
use yeyj_tcp_server.Base.{
  ℕ, ◌-◌, ◌<◌, ◌≡◌, ◌⊎◌, refl, ap, ◌∙◌, arith, Bool, true, false, ◌||◌, ltb, some, [], ◌∷◌, ◌++◌,
  Bool-cases, inl, inr, Returns,
}
use yeyj_tcp_server.Connection.{Connection}
use yeyj_tcp_server.HashTable.Chains.{Key}
use yeyj_tcp_server.HashTable.Moves.{Keeps}
use yeyj_tcp_server.HashTable.Table.{Dict, size, empty}
use yeyj_tcp_server.HashTable.Valid.{view}
use yeyj_tcp_server.Worker.Pool.{Leaves, Leaves-trans, Removes-Leaves, remove_connection-Leaves}
use yeyj_tcp_server.Worker.{
  Worker, Master, Pointer, epoll_del, above, choose, no_id, remove_connection,
}

-- Forced, or inactive for longer than the timeout.
abbrev pub IsDue : Master → Bool → ℕ → Connection → Type 0
IsDue m force now c = (force || above (now - c.last_active_time) m.inactive_tcp_timeout) ≡ true

pub is_filled : (d : Dict ℕ Pointer) → empty d ≡ false → 0 < size d
unfolding empty size
is_filled d h = ground arith

module _ ⦃key : Key ℕ⦄ where
  pub Keeps-Leaves : (d d' : Dict ℕ Pointer) (k : ℕ) → Keeps d d' → Leaves false k d d'
  Keeps-Leaves d d' k keep = record {
    valid = keep.valid;
    views = keep.same_view;
    no_more = omega (arith, keep.same_size);
    same_iterators = keep.same_iterators;
  }

module _ ⦃key : Key ℕ⦄ {S : Type 0} where
  -- The connection with the number `k` is in the pool, at `a`.
  abbrev pub Holds : Worker S → ℕ → ℕ → Type 0
  Holds w k a = (view w.pool k ≡ some (some a)) × ((w.objects a).id ≡ k)

  -- What an eviction does: nothing but the pool and the calls of epoll change; at most one number
  -- leaves the pool, and only that of a connection for which `Due` holds.
  pub record Evicts (Due : Connection → Type 0) (w w' : Worker S) : Type 0 where
    pub gone : Bool
    pub who : ℕ
    pub leaves : Leaves gone who w.pool w'.pool
    pub same_objects : w'.objects ≡ w.objects
    pub same_queue : w'.incoming ≡ w.incoming
    pub due : gone ≡ true → (a : ℕ) × Holds w who a × Due (w.objects a)

  -- Nothing leaves.
  pub unchanged :
      (Due : Connection → Type 0) (w : Worker S) (d : Dict ℕ Pointer)
      → Keeps w.pool d
      → Evicts Due w (record w { pool = d })
  unchanged Due w d keep = record {
    gone = false;
    who = 0;
    leaves = Keeps-Leaves w.pool d 0 keep;
    same_objects = refl;
    same_queue = refl;
    due = λ h. absurd (cc h);
  }

  -- `_connectionPool[k]` and `removeConnection` of it, after steps that keep the map.
  pub removed :
      (Due : Connection → Type 0) (w : Worker S) (d : Dict ℕ Pointer) (k a : ℕ)
      → Leaves false k w.pool d
      → Holds w k a
      → Due (w.objects a)
      → Returns (remove_connection (some a) (record w { pool = d })) (Evicts Due w)
  removed Due w d k a kept (there, named) right =
      let (d', run, r) = remove_connection-Leaves a (record w { pool = d }) kept.valid in
      let l = subst (λ n. Leaves true n d d') named (Removes-Leaves (w.objects a).id d d' r) in
      (
        record w { pool = d'; epoll = w.epoll ++ epoll_del (w.objects a).connfd ∷ [] },
        run,
        record {
          gone = true;
          who = k;
          leaves = Leaves-trans false true k w.pool d d' kept l;
          same_objects = refl;
          same_queue = refl;
          due = λ h. (a, (there, named), right);
        },
      )

  -- What `evictRandomN` has found: no connection yet, or one of the pool with the time it has been
  -- inactive for.
  abbrev pub IsFound : ℕ → Worker S → ℕ × ℕ → Type 0
  IsFound now w (k, t) =
      (k ≡ no_id) ⊎ ((a : ℕ) × Holds w k a × (t ≡ now - (w.objects a).last_active_time))

  pub choose-IsFound :
      (now a k : ℕ) (best : ℕ × ℕ) (w : Worker S)
      → Holds w k a
      → IsFound now w best
      → IsFound now w (choose now (w.objects a) best)
  unfolding choose
  choose-IsFound now a k (most_id, most_time) w (there, named) found =
      elim (Bool-cases (ltb most_time (now - (w.objects a).last_active_time))) [
        | inl longer ↦ rw longer (inr (a, (ap (view w.pool) named ∙ there, refl), refl))
        | inr no_longer ↦ rw no_longer found
      ]
